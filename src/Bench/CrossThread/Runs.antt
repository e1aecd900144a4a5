-- ===== src/Bench/CrossThread/Runs.antt =====
-- src/bench.rs, `measure_cross_thread`: a counter over an interleaving.
use hotclock.Prelude.{
  ℕ, zero, suc, ◌+◌, ◌≤◌, ◌<◌, ◌≡◌, refl, sym, ap, subst, arith, max, List, [], ◌∷◌, length, All,
}
use hotclock.Word.{u64_mod}
use hotclock.Bench.CrossThread.{Round, Local, fresh, after_round, modify, run, locals}

unfoldable pub total : (Local → ℕ) → List Local → ℕ
total p [] = 0
total p (l ∷ ls) = p l + total p ls

-- a count over an interleaving, each round with the shared maximum that it meets
unfoldable pub count : (ℕ → Round → ℕ) → ℕ → List Round → ℕ
count δ shared [] = 0
count δ shared (e ∷ es) = δ shared e + count δ (max shared e.r1) es

pub total-modify :
    (p : Local → ℕ) (f : Local → Local) (d i : ℕ) (ls : List Local)
    → i < length ls
    → ((l : Local) → p l ≤ total p ls → p (f l) ≡ p l + d)
    → total p (modify i f ls) ≡ total p ls + d
unfolding total modify
total-modify p f d i [] h step = absurd (omega arith)
total-modify p f d zero (l ∷ ls) h step = omega (arith, step l (omega arith))
total-modify p f d (suc i) (l ∷ ls) h step =
    omega (arith, total-modify p f d i ls (omega arith) (λ k b. step k (omega arith)))

pub length-modify :
    (i : ℕ) (f : Local → Local) (ls : List Local) → length (modify i f ls) ≡ length ls
unfolding modify
length-modify i f [] = refl
length-modify zero f (l ∷ ls) = refl
length-modify (suc i) f (l ∷ ls) = ap suc (length-modify i f ls)

-- each round is made by one of so many threads
abbrev pub IsMadeBy : ℕ → List Round → Type 0
IsMadeBy threads es = All (λ e. e.thread < threads) es

-- A counter that a round raises by at most one is, in total, the count of the rounds that raise it.
pub total-run :
    (p : Local → ℕ) (δ : ℕ → Round → ℕ)
    → ((shared : ℕ) (e : Round) → δ shared e ≤ 1)
    → ((shared : ℕ) (e : Round) (l : Local)
        → p l + 1 < u64_mod
        → p (after_round shared e l) ≡ p l + δ shared e)
    → (es : List Round) (shared : ℕ) (ls : List Local) → IsMadeBy (length ls) es
    → total p ls + length es < u64_mod
    → total p (run es shared ls) ≡ total p ls + count δ shared es
unfolding count run
total-run p δ small step [] shared ls made fits = omega arith
total-run p δ small step (e ∷ es) shared ls made fits =
    let ls' = modify e.thread (after_round shared e) ls in
    let once =
      total-modify p (after_round shared e) (δ shared e) e.thread ls made.0
        (λ l b. step shared e l (omega arith)) in
    let rest =
      total-run p δ small step es (max shared e.r1) ls'
        (subst (λ n. IsMadeBy n es) (sym (length-modify e.thread (after_round shared e) ls)) made.1)
        (omega (arith, once, small shared e)) in
    omega (arith, once, rest)

locals-zero : (p : Local → ℕ) → p fresh ≡ 0 → (n : ℕ) → total p (locals n) ≡ 0
unfolding total locals
locals-zero p z zero = refl
locals-zero p z (suc n) = omega (arith, z, locals-zero p z n)

pub length-locals : (n : ℕ) → length (locals n) ≡ n
unfolding locals
length-locals zero = refl
length-locals (suc n) = ap suc (length-locals n)

-- a count of rounds is at most the number of rounds
pub count_bounds :
    (δ : ℕ → Round → ℕ)
    → ((shared : ℕ) (e : Round) → δ shared e ≤ 1)
    → (es : List Round) (shared : ℕ) → count δ shared es ≤ length es
unfolding count
count_bounds δ small [] shared = omega arith
count_bounds δ small (e ∷ es) shared =
    omega (arith, small shared e, count_bounds δ small es (max shared e.r1))

-- From fresh threads, the total of such a counter is the count over the whole interleaving.
pub total-run-fresh :
    (p : Local → ℕ) (δ : ℕ → Round → ℕ)
    → ((shared : ℕ) (e : Round) → δ shared e ≤ 1)
    → ((shared : ℕ) (e : Round) (l : Local)
        → p l + 1 < u64_mod
        → p (after_round shared e l) ≡ p l + δ shared e)
    → p fresh ≡ 0
    → (threads : ℕ) (es : List Round) → IsMadeBy threads es
    → length es < u64_mod
    → total p (run es 0 (locals threads)) ≡ count δ 0 es
total-run-fresh p δ small step z threads es made fits = omega (
  arith,
  locals-zero p z threads,
  total-run p δ small step es 0 (locals threads)
      (subst (λ n. IsMadeBy n es) (sym (length-locals threads)) made)
      (omega (arith, locals-zero p z threads)),
)
