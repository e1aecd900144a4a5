-- ===== src/Skew/Args.antt =====
-- benches/skew.rs, `parse_args`: the arguments of the program, after its own name.
pub mod Spelled
use Prim.Native.Char.{code}
use Prim.Native.String.{String}
use text.Mathlib.Text.{◌==◌, starts_with}
use hotclock.Prelude.{
  ℕ, zero, suc, ◌+◌, ◌-◌, ◌*◌, min, Bool, true, false, Option, none, some, List, [], ◌∷◌, ltb, leb,
  ◌&&◌, ◌||◌, if◌then◌else◌,
}
use hotclock.Prelude as Base
use hotclock.Word.{u64_mod}
use hotclock.Duration.{Duration, from_secs}

pub data Mode : Type 0 where
  fast drift all : Mode

pub record Args : Type 0 where
  pub mode : Mode
  pub cell : String
  pub only_clock : Option String
  pub threads : ℕ
  pub duration : Duration
  pub skew_1s_samples : ℕ
  pub skew_1m_samples : ℕ
  pub output : Option String

pub data ArgPanic : Type 0 where
  unknown_mode not_an_integer : ArgPanic

pub data Parsed {ℓ} (A : Type ℓ) : Type ℓ where
  parsed : A → Parsed A
  panicked : ArgPanic → Parsed A

infixl 5 ◌>>=◌
abbrev pub ◌>>=◌ {ℓ κ} : {A : Type ℓ} {B : Type κ} → Parsed A → (A → Parsed B) → Parsed B
parsed a >>= f = f a
panicked p >>= f = panicked p

-- the value of decimal digits after those read so far, if it fits 64 bits
digits : ℕ → String → Option ℕ
digits n String.[] = some n
digits n (String.◌∷◌ c s) =
    let value = n * 10 + (code c - b'0') in
    let rest = digits value s in
    if leb b'0' (code c) && leb (code c) b'9' && ltb value u64_mod then rest else none

-- `str::parse` for usize (of 64 bits) and u64: one sign `+` may stand before at least one digit
unfoldable pub parse_u64 : String → Option ℕ
unfolding digits
parse_u64 String.[] = none
parse_u64 (String.◌∷◌ c String.[]) = digits 0 (String.◌∷◌ c String.[])
parse_u64 (String.◌∷◌ c (String.◌∷◌ d s)) =
    if Base.◌==◌ (code c) b'+'
    then digits 0 (String.◌∷◌ d s)
    else digits 0 (String.◌∷◌ c (String.◌∷◌ d s))

-- the arms of the `match` on an argument
pub data Flag : Type 0 where
  mode_flag cell_flag only_clock_flag threads_flag duration_flag : Flag
  skew_1s_flag skew_1m_flag output_flag pass_through unknown_long positional : Flag

is_pass_through : String → Bool
is_pass_through arg =
    arg == "--bench"
    || arg == "--test"
    || arg == "--quiet"
    || arg == "--verbose"
    || arg == "--nocapture"

unfoldable pub flag_of : String → Flag
unfolding is_pass_through
flag_of arg =
    if arg == "--mode"
    then mode_flag
    else if arg == "--cell"
    then cell_flag
    else if arg == "--only-clock"
    then only_clock_flag
    else if arg == "--threads"
    then threads_flag
    else if arg == "--duration"
    then duration_flag
    else if arg == "--skew-1s-samples"
    then skew_1s_flag
    else if arg == "--skew-1m-samples"
    then skew_1m_flag
    else if arg == "--output"
    then output_flag
    else if is_pass_through arg
    then pass_through
    else if starts_with arg "--"
    then unknown_long
    else positional

unfoldable pub mode_of : String → Parsed Mode
mode_of text =
    if text == "fast"
    then parsed fast
    else if text == "drift"
    then parsed drift
    else if text == "all"
    then parsed all
    else panicked unknown_mode

-- `parse().expect(…)`
integer : Option ℕ → Parsed ℕ
integer none = panicked not_an_integer
integer (some n) = parsed n

unfoldable pub integer_of : String → Parsed ℕ
unfolding integer parse_u64 digits
integer_of text = integer (parse_u64 text)

-- one argument, with the text after it: the new values, or a panic
unfoldable pub apply_flag : Flag → String → Args → Parsed Args
apply_flag mode_flag next a = do m ← mode_of next; parsed (record a { mode = m })
apply_flag cell_flag next a = parsed (record a { cell = next })
apply_flag only_clock_flag next a = parsed (record a { only_clock = some next })
apply_flag threads_flag next a = do n ← integer_of next; parsed (record a { threads = n })
apply_flag duration_flag next a = do
  n ← integer_of next
  parsed (record a { duration = from_secs n })
apply_flag skew_1s_flag next a = do n ← integer_of next; parsed (record a { skew_1s_samples = n })
apply_flag skew_1m_flag next a = do n ← integer_of next; parsed (record a { skew_1m_samples = n })
apply_flag output_flag next a = parsed (record a { output = some next })
apply_flag pass_through next a = parsed a
apply_flag unknown_long next a = parsed a
apply_flag positional next a = parsed a

-- whether the index moves by two
abbrev pub takes_value : Flag → Bool
takes_value pass_through = false
takes_value positional = false
takes_value _ = true

-- the `while` loop over the arguments that are left; a missing value is the empty text
unfoldable pub parse_from : List String → Args → Parsed Args
parse_from [] a = parsed a
parse_from (arg ∷ []) a = apply_flag (flag_of arg) String.[] a
parse_from (arg ∷ next ∷ rest) a = do
  a' ← apply_flag (flag_of arg) next a
  elim (takes_value (flag_of arg)) [
    | true ↦ parse_from rest a'
    | false ↦ parse_from (next ∷ rest) a'
  ]

-- `available_parallelism().unwrap_or(4).min(16)`
abbrev pub default_threads : Option ℕ → ℕ
default_threads none = 4
default_threads (some n) = min n 16

abbrev pub default_args : Option ℕ → Args
default_args parallelism = record {
  mode = all;
  cell = "unknown";
  only_clock = none;
  threads = default_threads parallelism;
  duration = from_secs 10;
  skew_1s_samples = 30;
  skew_1m_samples = 5;
  output = none;
}

unfoldable pub parse_args : Option ℕ → List String → Parsed Args
unfolding parse_from
parse_args parallelism argv = parse_from argv (default_args parallelism)
