-- ===== src/Skew/Args/Spelled.antt =====
-- benches/skew.rs, `parse_args`: what the argument list of a sequence of settings does.
use Prim.Native.String.{String}
use text.Mathlib.Text.{◌==◌, starts_with}
use text.Mathlib.TextEquality.{eq_iff}
use hotclock.Prelude.{
  ℕ, ◌≡◌, refl, ap, sym, ◌∙◌, Bool-cases, inl, inr, if◌then◌else◌, true, false, Option, none, some,
  List, [], ◌∷◌, ◌++◌, All,
}
use mathlib.Core.List.{append_assoc, append-nil}
use hotclock.Duration.{from_secs}
use hotclock.Skew.Args.{
  Mode, fast, drift, all, Args, ArgPanic, parsed, panicked, flag_of, positional, unknown_long,
  mode_of, integer_of, apply_flag, parse_from, parse_args, parse_u64, unknown_mode, not_an_integer,
  default_args,
}

-- a setting of the program, as a user means it
pub data Setting : Type 0 where
  set_mode : Mode → Setting
  set_cell : String → Setting
  set_only_clock : String → Setting
  set_threads : String → ℕ → Setting
  set_duration : String → ℕ → Setting
  set_skew_1s_samples : String → ℕ → Setting
  set_skew_1m_samples : String → ℕ → Setting
  set_output : String → Setting
  quiet : Setting
  unknown : String → String → Setting
  word : String → Setting

abbrev mode_name : Mode → String
mode_name fast = "fast"
mode_name drift = "drift"
mode_name all = "all"

-- how it is written
abbrev pub spelled : Setting → List String
spelled (set_mode m) = "--mode" ∷ mode_name m ∷ []
spelled (set_cell c) = "--cell" ∷ c ∷ []
spelled (set_only_clock c) = "--only-clock" ∷ c ∷ []
spelled (set_threads s n) = "--threads" ∷ s ∷ []
spelled (set_duration s n) = "--duration" ∷ s ∷ []
spelled (set_skew_1s_samples s n) = "--skew-1s-samples" ∷ s ∷ []
spelled (set_skew_1m_samples s n) = "--skew-1m-samples" ∷ s ∷ []
spelled (set_output p) = "--output" ∷ p ∷ []
spelled quiet = "--quiet" ∷ []
spelled (unknown o v) = o ∷ v ∷ []
spelled (word s) = s ∷ []

-- what it does
abbrev pub effect : Setting → Args → Args
effect (set_mode m) a = record a { mode = m }
effect (set_cell c) a = record a { cell = c }
effect (set_only_clock c) a = record a { only_clock = some c }
effect (set_threads s n) a = record a { threads = n }
effect (set_duration s n) a = record a { duration = from_secs n }
effect (set_skew_1s_samples s n) a = record a { skew_1s_samples = n }
effect (set_skew_1m_samples s n) a = record a { skew_1m_samples = n }
effect (set_output p) a = record a { output = some p }
effect _ a = a

abbrev pub known_flags : List String
known_flags =
    "--mode" ∷ "--cell" ∷ "--only-clock" ∷ "--threads" ∷ "--duration" ∷ "--skew-1s-samples"
    ∷ "--skew-1m-samples" ∷ "--output" ∷ "--bench" ∷ "--test" ∷ "--quiet" ∷ "--verbose"
    ∷ "--nocapture" ∷ []

-- A text that stands for a number parses as it; an option that is not known starts with `--`, and
-- a word does not.
abbrev pub IsSpelling : Setting → Type 0
IsSpelling (set_threads s n) = integer_of s ≡ parsed n
IsSpelling (set_duration s n) = integer_of s ≡ parsed n
IsSpelling (set_skew_1s_samples s n) = integer_of s ≡ parsed n
IsSpelling (set_skew_1m_samples s n) = integer_of s ≡ parsed n
IsSpelling (unknown o v) = All (λ k. (o == k) ≡ false) known_flags × (starts_with o "--" ≡ true)
IsSpelling (word s) = starts_with s "--" ≡ false
IsSpelling _ = Unit {0}

abbrev pub spelled_all : List Setting → List String
spelled_all [] = []
spelled_all (s ∷ ss) = spelled s ++ spelled_all ss

abbrev pub effect_all : List Setting → Args → Args
effect_all [] a = a
effect_all (s ∷ ss) a = effect_all ss (effect s a)

-- A text that does not start with `--` is none of those that do.
word-ne : (s k : String) → starts_with s "--" ≡ false → starts_with k "--" ≡ true → (s == k) ≡ false
word-ne s k h l = elim (Bool-cases (s == k)) [
  | inl e ↦ cc (sym h ∙ ap (λ t. starts_with t "--") ((eq_iff s k).0 e) ∙ l)
  | inr e ↦ e
]

word-All :
    (s : String) (ks : List String)
    → starts_with s "--" ≡ false
    → All (λ k. starts_with k "--" ≡ true) ks
    → All (λ k. (s == k) ≡ false) ks
word-All s [] h long = tt
word-All s (k ∷ ks) h (first, rest) = (word-ne s k h first, word-All s ks h rest)

known_long : All (λ k. starts_with k "--" ≡ true) known_flags
known_long = (
  refl,
  (
    refl,
    (refl, (refl, (refl, (refl, (refl, (refl, (refl, (refl, (refl, (refl, (refl, tt))))))))))),
  ),
)

word-known : (s : String) → starts_with s "--" ≡ false → All (λ k. (s == k) ≡ false) known_flags
word-known s h = word-All s known_flags h known_long

flag_of-unknown :
    (o : String)
    → All (λ k. (o == k) ≡ false) known_flags
    → flag_of o ≡ (if starts_with o "--" then unknown_long else positional)
unfolding flag_of
flag_of-unknown o (a, (b, (c, (d, (e, (f, (g, (h, (i, (j, (k, (l, (m, _))))))))))))) =
    rw (a, b, c, d, e, f, g, h, i, j, k, l, m)

-- one setting at the front of the list
parse_from-spelled :
    (s : Setting) (rest : List String) (a : Args)
    → IsSpelling s
    → parse_from (spelled s ++ rest) a ≡ parse_from rest (effect s a)
unfolding parse_from apply_flag flag_of mode_of
parse_from-spelled (set_mode fast) rest a h = refl
parse_from-spelled (set_mode drift) rest a h = refl
parse_from-spelled (set_mode all) rest a h = refl
parse_from-spelled (set_cell c) rest a h = refl
parse_from-spelled (set_only_clock c) rest a h = refl
parse_from-spelled (set_threads s n) rest a h = rw h
parse_from-spelled (set_duration s n) rest a h = rw h
parse_from-spelled (set_skew_1s_samples s n) rest a h = rw h
parse_from-spelled (set_skew_1m_samples s n) rest a h = rw h
parse_from-spelled (set_output p) rest a h = refl
parse_from-spelled quiet [] a h = refl
parse_from-spelled quiet (x ∷ rest) a h = refl
parse_from-spelled (unknown o v) rest a (new, long) = rw (flag_of-unknown o new, long)
parse_from-spelled (word s) [] a h = rw (flag_of-unknown s (word-known s h), h)
parse_from-spelled (word s) (x ∷ rest) a h = rw (flag_of-unknown s (word-known s h), h)

parse_from-spelled_all :
    (ss : List Setting) (rest : List String) (a : Args)
    → All IsSpelling ss
    → parse_from (spelled_all ss ++ rest) a ≡ parse_from rest (effect_all ss a)
parse_from-spelled_all [] rest a h = refl
parse_from-spelled_all (s ∷ ss) rest a (first, others) =
    ap (λ l. parse_from l a) (append_assoc (spelled s) (spelled_all ss) rest)
    ∙ parse_from-spelled s (spelled_all ss ++ rest) a first
    ∙ parse_from-spelled_all ss rest (effect s a) others

-- an option with a value that makes the program panic
pub data Flawed : Type 0 where
  bad_mode bad_threads bad_duration bad_skew_1s_samples bad_skew_1m_samples : String → Flawed

abbrev pub flawed_text : Flawed → List String
flawed_text (bad_mode v) = "--mode" ∷ v ∷ []
flawed_text (bad_threads v) = "--threads" ∷ v ∷ []
flawed_text (bad_duration v) = "--duration" ∷ v ∷ []
flawed_text (bad_skew_1s_samples v) = "--skew-1s-samples" ∷ v ∷ []
flawed_text (bad_skew_1m_samples v) = "--skew-1m-samples" ∷ v ∷ []

abbrev pub IsFlawed : Flawed → Type 0
IsFlawed (bad_mode v) = All (λ k. (v == k) ≡ false) ("fast" ∷ "drift" ∷ "all" ∷ [])
IsFlawed (bad_threads v) = parse_u64 v ≡ none
IsFlawed (bad_duration v) = parse_u64 v ≡ none
IsFlawed (bad_skew_1s_samples v) = parse_u64 v ≡ none
IsFlawed (bad_skew_1m_samples v) = parse_u64 v ≡ none

abbrev pub panic_of : Flawed → ArgPanic
panic_of (bad_mode v) = unknown_mode
panic_of _ = not_an_integer

parse_from-flawed :
    (f : Flawed) (rest : List String) (a : Args)
    → IsFlawed f
    → parse_from (flawed_text f ++ rest) a ≡ panicked (panic_of f)
unfolding parse_from apply_flag flag_of mode_of integer_of
parse_from-flawed (bad_mode v) rest a (x, (y, (z, _))) = rw (x, y, z)
parse_from-flawed (bad_threads v) rest a h = rw h
parse_from-flawed (bad_duration v) rest a h = rw h
parse_from-flawed (bad_skew_1s_samples v) rest a h = rw h
parse_from-flawed (bad_skew_1m_samples v) rest a h = rw h

-- The argument list of any sequence of settings parses to the default values with the settings
-- made in turn, so that a later one wins; options that are not known are skipped with their value,
-- words alone. After any such sequence, a mode that is none of the three, or a number that is not
-- one, panics, whatever follows.
pub parse_args-spelled :
    (parallelism : Option ℕ) (ss : List Setting) (f : Flawed) (rest : List String)
    → All IsSpelling ss
    → IsFlawed f
    → (parse_args parallelism (spelled_all ss) ≡ parsed (effect_all ss (default_args parallelism)))
      × (parse_args parallelism (spelled_all ss ++ (flawed_text f ++ rest)) ≡ panicked (panic_of f))
unfolding parse_args
parse_args-spelled p ss f rest h bad = (
  ap (λ l. parse_from l (default_args p)) (sym (append-nil (spelled_all ss)))
      ∙ parse_from-spelled_all ss [] (default_args p) h,
  parse_from-spelled_all ss (flawed_text f ++ rest) (default_args p) h
      ∙ parse_from-flawed f rest (effect_all ss (default_args p)) bad,
)
