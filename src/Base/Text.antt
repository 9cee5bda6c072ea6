-- ===== src/Base/Text.antt =====
-- Go's operations on texts that the program uses, by recursion on the characters.
use Prim.Native.Char.{code}
use Prim.Native.String.{String}
use Prim.Native.String.{◌++◌ as str_append}
use mathlib.Core.Path.{◌≡◌}
use mathlib.Core.Bool.{Bool, true, false}
use mathlib.Core.Option.{Option, none, some}
use native.Mathlib.Omega.{arith}
use text.Mathlib.Text.{◌==◌ as str_eq}
use text.Mathlib.TextLemmas.{nil-append, cons-append}
use redline.Base.Tests.{◌==◌, if◌then◌else◌}

abbrev pub is_empty : String → Bool
is_empty String.[] = true
is_empty (String.◌∷◌ c s) = false

-- `strings.CutPrefix`: what follows the prefix, if the text has it.
unfoldable pub cut_prefix : String → String → Option String
cut_prefix s String.[] = some s
cut_prefix String.[] (String.◌∷◌ p ps) = none
cut_prefix (String.◌∷◌ c cs) (String.◌∷◌ p ps) =
    let rest = cut_prefix cs ps in if code c == code p then rest else none

-- `strings.Contains`, `strings.HasSuffix` and `strings.HasPrefix`.
unfoldable pub has_prefix : String → String → Bool
has_prefix s String.[] = true
has_prefix String.[] (String.◌∷◌ p ps) = false
has_prefix (String.◌∷◌ c cs) (String.◌∷◌ p ps) =
    let rest = has_prefix cs ps in if code c == code p then rest else false

pub cut_prefix-append : (p s : String) → cut_prefix (str_append p s) p ≡ some s
unfolding cut_prefix
cut_prefix-append String.[] s = rw nil-append
cut_prefix-append (String.◌∷◌ c p) s = rw cons-append (ground (arith, cut_prefix-append p s))

unfoldable pub str_contains : String → String → Bool
unfolding has_prefix
str_contains String.[] t = has_prefix String.[] t
str_contains (String.◌∷◌ c s) t =
    let rest = str_contains s t in if has_prefix (String.◌∷◌ c s) t then true else rest

-- `strings.HasSuffix`.
unfoldable pub has_suffix : String → String → Bool
has_suffix String.[] t = str_eq String.[] t
has_suffix (String.◌∷◌ c s) t =
    let rest = has_suffix s t in if str_eq (String.◌∷◌ c s) t then true else rest
