-- ===== src/Calibration/Median.antt =====
-- src/calibration.rs: the sort and the median of the five estimates.
use hotclock.Prelude.{
  ℕ, suc, ◌+◌, ◌≤◌, ◌≡◌, refl, arith, leb, ◌&&◌, if◌then◌else◌, List, [], ◌∷◌, length, get_elem?,
  All, Bool-cases, inl, inr,
}
use hotclock.Calibration.{insert, sort_unstable, median, middle, num_samples}

abbrev pub IsAscending : List ℕ → Type 0
IsAscending [] = Unit
IsAscending (x ∷ []) = Unit
IsAscending (x ∷ y ∷ ys) = (x ≤ y) × IsAscending (y ∷ ys)

-- how many numbers of the list lie from `lo` to `hi`
abbrev pub inside : ℕ → ℕ → ℕ → ℕ
inside lo hi x = if leb lo x && leb x hi then 1 else 0

unfoldable pub count_inside : ℕ → ℕ → List ℕ → ℕ
count_inside lo hi [] = 0
count_inside lo hi (x ∷ xs) = inside lo hi x + count_inside lo hi xs

insert-IsAscending : (x : ℕ) (ys : List ℕ) → IsAscending ys → IsAscending (insert x ys)
unfolding insert
insert-IsAscending x [] h = tt
insert-IsAscending x (y ∷ []) h = ground arith
insert-IsAscending x (y ∷ z ∷ zs) h = ground (arith, insert-IsAscending x (z ∷ zs) h.1)

count_inside-insert :
    (lo hi x : ℕ) (ys : List ℕ)
    → count_inside lo hi (insert x ys) ≡ inside lo hi x + count_inside lo hi ys
unfolding insert count_inside
count_inside-insert lo hi x [] = refl
count_inside-insert lo hi x (y ∷ ys) = ground (arith, count_inside-insert lo hi x ys)

length-insert : (x : ℕ) (ys : List ℕ) → length (insert x ys) ≡ suc (length ys)
unfolding insert
length-insert x [] = refl
length-insert x (y ∷ ys) = ground (arith, length-insert x ys)

sort_count :
    (lo hi x : ℕ) (xs : List ℕ)
    → count_inside lo hi (sort_unstable xs) ≡ count_inside lo hi xs
    → count_inside lo hi (insert x (sort_unstable xs)) ≡ inside lo hi x + count_inside lo hi xs
sort_count lo hi x xs h = omega (arith, count_inside-insert lo hi x (sort_unstable xs))

-- The sort returns an ascending list of the same length, with as many numbers in every range as
-- before.
pub sort_unstable_lem :
    (xs : List ℕ) (lo hi : ℕ)
    → IsAscending (sort_unstable xs)
      × (length (sort_unstable xs) ≡ length xs)
      × (count_inside lo hi (sort_unstable xs) ≡ count_inside lo hi xs)
unfolding sort_unstable count_inside
sort_unstable_lem [] lo hi = (tt, refl, refl)
sort_unstable_lem (x ∷ xs) lo hi =
    let (asc, len, counts) = sort_unstable_lem xs lo hi in
    (
      insert-IsAscending x (sort_unstable xs) asc,
      omega (arith, length-insert x (sort_unstable xs)),
      sort_count lo hi x xs counts,
    )

-- Of five numbers in ascending order the middle one is in a range that holds three of them.
middle_of_five :
    (lo hi : ℕ) (s : List ℕ)
    → length s ≡ num_samples
    → IsAscending s
    → 3 ≤ count_inside lo hi s
    → (lo ≤ middle (get_elem? s 2)) × (middle (get_elem? s 2) ≤ hi)
unfolding count_inside
middle_of_five lo hi (a ∷ b ∷ c ∷ d ∷ e ∷ []) len asc most = ground arith
middle_of_five lo hi (a ∷ b ∷ c ∷ d ∷ e ∷ f ∷ r) len asc most = absurd (omega arith)
middle_of_five lo hi [] len asc most = absurd (omega arith)
middle_of_five lo hi (a ∷ []) len asc most = absurd (omega arith)
middle_of_five lo hi (a ∷ b ∷ []) len asc most = absurd (omega arith)
middle_of_five lo hi (a ∷ b ∷ c ∷ []) len asc most = absurd (omega arith)
middle_of_five lo hi (a ∷ b ∷ c ∷ d ∷ []) len asc most = absurd (omega arith)

-- The median of five estimates withstands two arbitrary outliers: it lies in every range that
-- holds at least three of them.
pub median_bounds :
    (lo hi : ℕ) (xs : List ℕ)
    → length xs ≡ num_samples
    → 3 ≤ count_inside lo hi xs
    → (lo ≤ median xs) × (median xs ≤ hi)
unfolding median
median_bounds lo hi xs len most =
    let (asc, len', counts) = sort_unstable_lem xs lo hi in
    middle_of_five lo hi (sort_unstable xs) (omega arith) asc (omega arith)

module _ (P : ℕ → Type 0) where
  insert-All : (x : ℕ) (ys : List ℕ) → P x → All P ys → All P (insert x ys)
  unfolding insert
  insert-All x [] h all = (h, tt)
  insert-All x (y ∷ ys) h all = elim (Bool-cases (leb x y)) [
    | inl le ↦ rw le (h, all)
    | inr gt ↦ rw gt (all.0, insert-All x ys h all.1)
  ]

  sort_unstable-All : (xs : List ℕ) → All P xs → All P (sort_unstable xs)
  unfolding sort_unstable
  sort_unstable-All [] all = tt
  sort_unstable-All (x ∷ xs) all =
      insert-All x (sort_unstable xs) all.0 (sort_unstable-All xs all.1)

  middle-All : (s : List ℕ) → 3 ≤ length s → All P s → P (middle (get_elem? s 2))
  middle-All (a ∷ b ∷ c ∷ r) len all = all.1.1.0
  middle-All [] len all = absurd (omega arith)
  middle-All (a ∷ []) len all = absurd (omega arith)
  middle-All (a ∷ b ∷ []) len all = absurd (omega arith)

  pub median-All : (xs : List ℕ) → length xs ≡ num_samples → All P xs → P (median xs)
  unfolding median
  median-All xs len all =
      let (asc, len', counts) = sort_unstable_lem xs 0 0 in
      middle-All (sort_unstable xs) (omega arith) (sort_unstable-All xs all)
