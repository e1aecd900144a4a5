-- ===== src/Skew/Commands/Model.antt =====
-- benches/skew.rs, `read_cpu_model`: the name of the processor out of a file of keys and values.
use Prim.Native.Char.{Char, code}
use Prim.Native.String.{String, ◌++◌}
use text.Mathlib.TextLemmas.{nil-append, cons-append}
use hotclock.Prelude.{true, false, ◌==◌, ◌≡◌, refl, ap, some, List, [], ◌∷◌, All}
use hotclock.Prelude as Base
use hotclock.Target.{linux}
use hotclock.Skew.Commands.{
  HostTexts, lines, until_colon, second_field, names_model, find_model, read_cpu_model,
}
use hotclock.Skew.Commands.Trimmed.{Each, IsBlank, StartsTight, EndsTight, trim-padded}

-- neither a line feed nor a carriage return
abbrev pub InLine : Char → Type 0
InLine c = ((code c == b'\n') ≡ false) × ((code c == b'\r') ≡ false)

abbrev pub IsLine : String → Type 0
IsLine l = Each InLine l

abbrev pub HasNoColon : String → Type 0
HasNoColon s = Each (λ c. (code c == b':') ≡ false) s

-- lines, and the text that follows them
abbrev pub file : List String → String → String
file [] rest = rest
file (l ∷ ls) rest = l ++ ("\n" ++ file ls rest)

Each-append : (P : Char → Type 0) (s t : String) → Each P s → Each P t → Each P (s ++ t)
Each-append P String.[] t left right = rw (nil-append t) right
Each-append P (String.◌∷◌ c s) t left right =
    rw (cons-append c s t) (left.0, Each-append P s t left.1 right)

cons_text : (c : Char) (s : String) → String.◌∷◌ c "" ++ s ≡ String.◌∷◌ c s
cons_text c s = rw (cons-append c "" s, nil-append s)

lines-line : (l s : String) → IsLine l → lines (l ++ ("\n" ++ s)) ≡ l ∷ lines s
unfolding lines
lines-line String.[] s h = rw (nil-append ("\n" ++ s), cons_text "\n" s)
lines-line (String.◌∷◌ c l) s h = rw (cons-append c l ("\n" ++ s), h.0.0, h.0.1, lines-line l s h.1)

lines-file :
    (ls : List String) (rest : String)
    → All IsLine ls
    → lines (file ls rest) ≡ Base.◌++◌ ls (lines rest)
lines-file [] rest h = refl
lines-file (l ∷ ls) rest h = rw (lines-line l (file ls rest) h.0, lines-file ls rest h.1)

find_model-append :
    (ls : List String) (l : String) (rest : List String)
    → All (λ k. names_model k ≡ false) ls
    → names_model l ≡ true
    → find_model (Base.◌++◌ ls (l ∷ rest)) ≡ some l
unfolding find_model
find_model-append [] l rest others h = rw h
find_model-append (k ∷ ls) l rest others h = rw (others.0, find_model-append ls l rest others.1 h)

until_colon-none : (s : String) → HasNoColon s → until_colon s ≡ s
unfolding until_colon
until_colon-none String.[] h = refl
until_colon-none (String.◌∷◌ c s) h = rw (h.0, until_colon-none s h.1)

second_field-append :
    (k v : String) → HasNoColon k → HasNoColon v → second_field (k ++ (":" ++ v)) ≡ v
unfolding second_field
second_field-append String.[] v hk hv =
    rw (nil-append (":" ++ v), cons_text ":" v, until_colon-none v hv)
second_field-append (String.◌∷◌ c k) v hk hv =
    rw (cons-append c k (":" ++ v), hk.0, second_field-append k v hk.1 hv)

-- On Linux, where /proc/cpuinfo is any lines that do not start with `model name` or `Model`, then a
-- line that does, of a key, a colon and a name between white space, and any text: `read_cpu_model`
-- is that name. The key has no colon, and neither has what stands after it in the line.
pub read_cpu_model-linux :
    (h : HostTexts) (before : List String) (k a name b rest : String)
    → All IsLine before
    → All (λ l. names_model l ≡ false) before
    → IsLine k
    → IsLine (a ++ (name ++ b))
    → HasNoColon k
    → HasNoColon (a ++ (name ++ b))
    → IsBlank a
    → IsBlank b
    → StartsTight name
    → EndsTight name
    → names_model (k ++ (":" ++ (a ++ (name ++ b)))) ≡ true
    → h.cpuinfo ≡ some (file before ((k ++ (":" ++ (a ++ (name ++ b)))) ++ ("\n" ++ rest)))
    → read_cpu_model linux h ≡ name
unfolding read_cpu_model
read_cpu_model-linux h before k a name b rest ls others lk lv hk hv blank blank' starts ends names
      e =
    let v = a ++ (name ++ b) in
    let line = k ++ (":" ++ v) in
    let is_line : IsLine line =
      Each-append InLine k (":" ++ v) lk (Each-append InLine ":" v ((refl, refl), tt) lv) in
    rw (
      e,
      lines-file before (line ++ ("\n" ++ rest)) ls,
      lines-line line rest is_line,
      find_model-append before line (lines rest) others names,
      second_field-append k v hk hv,
      trim-padded a name b blank blank' starts ends,
    )
