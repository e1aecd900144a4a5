-- ===== src/Skew/Commands/Trimmed.antt =====
-- benches/skew.rs: `trim` on a name between white space, in `read_cpu_model` and `read_kernel`.
use Prim.Native.Char.{Char}
use Prim.Native.String.{String, ◌++◌}
use text.Mathlib.TextLemmas.{nil-append, cons-append}
use hotclock.Prelude.{◌≡◌, sym, refl, ap, ◌∙◌, true, false, some}
use hotclock.Target.{macos}
use hotclock.Skew.Commands.{
  HostTexts, is_whitespace, trim_start, trim_end, trim, read_cpu_model, read_kernel,
}

-- every character of a text
abbrev pub Each : (Char → Type 0) → String → Type 0
Each P String.[] = Unit {0}
Each P (String.◌∷◌ c s) = P c × Each P s

abbrev pub IsBlank : String → Type 0
IsBlank s = Each (λ c. is_whitespace c ≡ true) s

-- the first character, and the last, is no white space
abbrev pub StartsTight : String → Type 0
StartsTight String.[] = Unit {0}
StartsTight (String.◌∷◌ c s) = is_whitespace c ≡ false

abbrev pub EndsTight : String → Type 0
EndsTight String.[] = Unit {0}
EndsTight (String.◌∷◌ c String.[]) = is_whitespace c ≡ false
EndsTight (String.◌∷◌ c (String.◌∷◌ d s)) = EndsTight (String.◌∷◌ d s)

trim_end-blank : (s : String) → IsBlank s → trim_end s ≡ ""
unfolding trim_end
trim_end-blank String.[] h = refl
trim_end-blank (String.◌∷◌ c s) h = rw (trim_end-blank s h.1, h.0)

trim_end-append : (s b : String) → EndsTight s → IsBlank b → trim_end (s ++ b) ≡ s
unfolding trim_end
trim_end-append String.[] b tight blank = rw (nil-append b, trim_end-blank b blank)
trim_end-append (String.◌∷◌ c String.[]) b tight blank =
    rw (cons-append c "" b, nil-append b, trim_end-blank b blank, tight)
trim_end-append (String.◌∷◌ c (String.◌∷◌ d s)) b tight blank =
    rw (cons-append c (String.◌∷◌ d s) b, trim_end-append (String.◌∷◌ d s) b tight blank)

trim_start-append : (a s : String) → IsBlank a → trim_start (a ++ s) ≡ trim_start s
unfolding trim_start
trim_start-append String.[] s blank = rw (nil-append s)
trim_start-append (String.◌∷◌ c a) s blank =
    rw (cons-append c a s, blank.0, trim_start-append a s blank.1)

trim_start-blank : (s : String) → IsBlank s → trim_start s ≡ ""
unfolding trim_start
trim_start-blank String.[] h = refl
trim_start-blank (String.◌∷◌ c s) h = rw (h.0, trim_start-blank s h.1)

-- white space on both sides goes, and nothing else
pub trim-padded :
    (a name b : String)
    → IsBlank a
    → IsBlank b
    → StartsTight name
    → EndsTight name
    → trim (a ++ (name ++ b)) ≡ name
unfolding trim trim_start
trim-padded a String.[] b before after starts ends =
    rw (nil-append b, trim_start-append a b before, trim_start-blank b after, trim_end-blank "" tt)
trim-padded a (String.◌∷◌ c s) b before after starts ends =
    rw (trim_start-append a (String.◌∷◌ c s ++ b) before, cons-append c s b, starts)
      (ap trim_end (sym (cons-append c s b)) ∙ trim_end-append (String.◌∷◌ c s) b ends after)

-- Where `uname -r`, or on macOS `sysctl`, prints a name between white space, the text is the name.
pub names-padded :
    (h : HostTexts) (a name b : String)
    → IsBlank a
    → IsBlank b
    → StartsTight name
    → EndsTight name
    → (h.uname ≡ some (a ++ (name ++ b)) → read_kernel h ≡ name)
      × (h.brand_string ≡ some (a ++ (name ++ b)) → read_cpu_model macos h ≡ name)
unfolding read_kernel read_cpu_model
names-padded h a name b before after starts ends = (
  λ e. rw e (trim-padded a name b before after starts ends),
  λ e. rw e (trim-padded a name b before after starts ends),
)
