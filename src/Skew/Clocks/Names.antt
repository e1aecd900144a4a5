-- ===== src/Skew/Clocks/Names.antt =====
-- benches/skew.rs: the names of the clocks, as keys of the report.
use Prim.Native.String.{String, compare}
use text.Mathlib.Text.{◌==◌, is_lt}
use text.Mathlib.TextEquality.{eq_iff}
use hotclock.Prelude.{
  ◌≡◌, refl, ap, subst, Bool, true, false, Option, none, some, List, [], ◌∷◌, All, Bool-cases, inl,
  inr, if◌then◌else◌,
}
use hotclock.Skew.Clocks.{
  Clock, name_of, all_clocks, ClockReport, clock_of, insert, is_selected, tach_instant,
  tach_ordered_instant, tach_instant_recal, std_instant, quanta_instant, minstant_instant,
  fastant_instant,
}

abbrev pub keys : List (String × ClockReport) → List String
keys [] = []
keys ((name, r) ∷ rest) = name ∷ keys rest

-- the names that are asked for: all of them, or those that are the one given
abbrev named : String → List String → List String
named only [] = []
named only (name ∷ names) = if only == name then name ∷ named only names else named only names

abbrev pub wanted : Option String → List String → List String
wanted none names = names
wanted (some only) names = named only names

-- a name that `run_clock` knows
abbrev pub IsKnown : Bool → String → Type 0
IsKnown recal name = (c : Clock) × (clock_of recal name ≡ some c) × (name_of c ≡ name)

pub all_clocks-IsKnown : (recal : Bool) → All (IsKnown recal) (all_clocks recal)
unfolding all_clocks clock_of
all_clocks-IsKnown true = (
  (tach_instant, refl, refl),
  (
    (tach_ordered_instant, refl, refl),
    (
      (tach_instant_recal, refl, refl),
      (
        (std_instant, refl, refl),
        (
          (quanta_instant, refl, refl),
          ((minstant_instant, refl, refl), ((fastant_instant, refl, refl), tt)),
        ),
      ),
    ),
  ),
)
all_clocks-IsKnown false = (
  (tach_instant, refl, refl),
  (
    (tach_ordered_instant, refl, refl),
    (
      (std_instant, refl, refl),
      (
        (quanta_instant, refl, refl),
        ((minstant_instant, refl, refl), ((fastant_instant, refl, refl), tt)),
      ),
    ),
  ),
)

-- the keys of a report with one more clock
abbrev pub insert_key : String → List String → List String
insert_key name [] = name ∷ []
insert_key name (key ∷ rest) =
    let others = insert_key name rest in
    if name == key
    then key ∷ rest
    else if is_lt (compare name key)
    then name ∷ key ∷ rest
    else key ∷ others

-- names one after the other into keys
abbrev pub inserted : List String → List String → List String
inserted [] ks = ks
inserted (name ∷ names) ks = inserted names (insert_key name ks)

-- names in the order of a report
abbrev pub in_order : List String → List String
in_order names = inserted names []

-- all the clocks, in the order of a report
in_order-all_clocks :
    (in_order (all_clocks true)
      ≡ "fastant" ∷ "minstant" ∷ "quanta" ∷ "std" ∷ "tach" ∷ "tach_ordered" ∷ "tach_recal" ∷ [])
    × (in_order (all_clocks false)
        ≡ "fastant" ∷ "minstant" ∷ "quanta" ∷ "std" ∷ "tach" ∷ "tach_ordered" ∷ [])
unfolding all_clocks
in_order-all_clocks = (refl, refl)

pub keys-insert :
    (name : String) (r : ClockReport) (rs : List (String × ClockReport))
    → keys (insert name r rs) ≡ insert_key name (keys rs)
unfolding insert
keys-insert name r [] = refl
keys-insert name r ((key, old) ∷ rs) = elim (Bool-cases (name == key)) [
  | inl e ↦ rw e refl
  | inr e ↦ elim (Bool-cases (is_lt (compare name key))) [
    | inl l ↦ rw (e, l) refl
    | inr l ↦ rw (e, l) (ap (λ ks. key ∷ ks) (keys-insert name r rs))
  ]
]

pub insert-All :
    (P : String × ClockReport → Type 0) (name : String) (r : ClockReport)
    (rs : List (String × ClockReport))
    → P (name, r)
    → All P rs
    → All P (insert name r rs)
unfolding insert
insert-All P name r [] p h = (p, tt)
insert-All P name r ((key, old) ∷ rs) p h = elim (Bool-cases (name == key)) [
  | inl e ↦ rw e (subst (λ k. P (k, r)) ((eq_iff name key).0 e) p, h.1)
  | inr e ↦ elim (Bool-cases (is_lt (compare name key))) [
    | inl l ↦ rw (e, l) (p, h)
    | inr l ↦ rw (e, l) (h.0, insert-All P name r rs p h.1)
  ]
]

-- the names that the loop does not skip
abbrev pub chosen_names : Option String → List String → List String
chosen_names only [] = []
chosen_names only (name ∷ names) =
    if is_selected only name then name ∷ chosen_names only names else chosen_names only names

pub chosen_names-wanted :
    (only : Option String) (names : List String) → chosen_names only names ≡ wanted only names
unfolding is_selected
chosen_names-wanted none [] = refl
chosen_names-wanted none (name ∷ names) = ap (λ l. name ∷ l) (chosen_names-wanted none names)
chosen_names-wanted (some only) [] = refl
chosen_names-wanted (some only) (name ∷ names) =
    ap (λ l. if only == name then name ∷ l else l) (chosen_names-wanted (some only) names)
