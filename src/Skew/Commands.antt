-- ===== src/Skew/Commands.antt =====
-- benches/skew.rs, `read_cpu_model` and `read_kernel`: the texts that name the host. What the
-- commands, the file and the variable give is a parameter; `str::lines`, `split` and `trim` of the
-- standard library are written out.
pub mod Trimmed
pub mod Model
use Prim.Native.Char.{Char, code}
use Prim.Native.String.{String}
use text.Mathlib.Text.{starts_with}
use hotclock.Prelude.{
  ℕ, Bool, true, false, ◌==◌, ◌&&◌, ◌||◌, leb, Option, none, some, List, [], ◌∷◌, if◌then◌else◌,
}
use hotclock.Target.{Os, linux, macos, windows}

-- The text of `sysctl -n machdep.cpu.brand_string`, of /proc/cpuinfo, of PROCESSOR_IDENTIFIER and
-- of `uname -r`: `none` for one that cannot be had, or is no UTF-8.
pub record HostTexts : Type 0 where
  pub brand_string : Option String
  pub cpuinfo : Option String
  pub processor_identifier : Option String
  pub uname : Option String

-- `unwrap_or_default`
abbrev pub or_empty : Option String → String
or_empty none = ""
or_empty (some s) = s

-- `char::is_whitespace`
abbrev pub is_whitespace : Char → Bool
is_whitespace c =
    (leb 9 (code c) && leb (code c) 13)
    || (code c == 32)
    || (code c == 0x85)
    || (code c == 0xA0)
    || (code c == 0x1680)
    || (leb 0x2000 (code c) && leb (code c) 0x200A)
    || (code c == 0x2028)
    || (code c == 0x2029)
    || (code c == 0x202F)
    || (code c == 0x205F)
    || (code c == 0x3000)

unfoldable pub trim_start : String → String
trim_start String.[] = String.[]
trim_start (String.◌∷◌ c s) =
    let rest = trim_start s in if is_whitespace c then rest else String.◌∷◌ c s

-- a character before a trimmed text: white space goes where nothing follows
abbrev pub before_trimmed : Char → String → String
before_trimmed c String.[] = if is_whitespace c then String.[] else String.◌∷◌ c String.[]
before_trimmed c (String.◌∷◌ d s) = String.◌∷◌ c (String.◌∷◌ d s)

unfoldable pub trim_end : String → String
trim_end String.[] = String.[]
trim_end (String.◌∷◌ c s) = before_trimmed c (trim_end s)

unfoldable pub trim : String → String
unfolding trim_start trim_end
trim s = trim_end (trim_start s)

-- a character before the lines of the text that follows it
abbrev pub before_lines : Char → List String → List String
before_lines c [] = String.◌∷◌ c String.[] ∷ []
before_lines c (l ∷ ls) = String.◌∷◌ c l ∷ ls

-- `lines`: a carriage return directly before the line feed is not part of the line, and the text
-- after the last line feed is a line if it is not empty
unfoldable pub lines : String → List String
lines String.[] = []
lines (String.◌∷◌ c s) =
    let rest = lines s in
    if code c == b'\n'
    then String.[] ∷ rest
    else if (code c == b'\r') && starts_with s "\n"
    then rest
    else before_lines c rest

-- `split(':').nth(1).unwrap_or("")`: what stands between the first colon and the next, or the end
unfoldable pub until_colon : String → String
until_colon String.[] = String.[]
until_colon (String.◌∷◌ c s) =
    let rest = until_colon s in if code c == b':' then String.[] else String.◌∷◌ c rest

unfoldable pub second_field : String → String
unfolding until_colon
second_field String.[] = String.[]
second_field (String.◌∷◌ c s) =
    let rest = second_field s in if code c == b':' then until_colon s else rest

abbrev pub names_model : String → Bool
names_model l = starts_with l "model name" || starts_with l "Model"

-- `find` on the lines
unfoldable pub find_model : List String → Option String
find_model [] = none
find_model (l ∷ ls) = let rest = find_model ls in if names_model l then some l else rest

abbrev pub model_of : Option String → Option String
model_of none = none
model_of (some l) = some (trim (second_field l))

abbrev pub model_in : Option String → Option String
model_in none = none
model_in (some text) = model_of (find_model (lines text))

-- `map(|s| s.trim().to_string())`
abbrev pub trimmed : Option String → Option String
trimmed none = none
trimmed (some s) = some (trim s)

unfoldable pub read_cpu_model : Os → HostTexts → String
unfolding lines find_model second_field trim
read_cpu_model macos h = or_empty (trimmed h.brand_string)
read_cpu_model linux h = or_empty (model_in h.cpuinfo)
read_cpu_model windows h = or_empty h.processor_identifier
read_cpu_model _ h = ""

unfoldable pub read_kernel : HostTexts → String
unfolding trim
read_kernel h = or_empty (trimmed h.uname)
