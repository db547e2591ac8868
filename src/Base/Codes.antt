-- ===== src/Base/Codes.antt =====
-- Texts as lists of code points, where the program takes them apart, and the standard library's
-- operations on them.
use Prim.Native.Char.{Char, code}
use Prim.Native.Nat.{ℕ, compare, Ordering}
use Prim.Native.String.{String}
use mathlib.Core.Bool.{Bool, true, false, ◌&&◌, ◌||◌}
use mathlib.Core.Option.{Option, none, some}
use mathlib.Core.List.{List, [], ◌∷◌}
use mix_match_onchain.Base.Tests.{if◌then◌else◌, leb}

abbrev pub Text : Type 0
Text = List ℕ

-- the code points of a literal
abbrev pub codes : String → Text
codes String.[] = []
codes (String.◌∷◌ c s) = code c ∷ codes s

abbrev pub same_code : ℕ → ℕ → Bool
same_code a b = elim (compare a b) [ Ordering.eq ↦ true | _ ↦ false ]

-- `text.startsWith(prefix)`
abbrev pub starts_with : Text → Text → Bool
starts_with text [] = true
starts_with [] (p ∷ ps) = false
starts_with (c ∷ text) (p ∷ ps) = same_code c p && starts_with text ps

-- A text with one more character before its first part.
abbrev pub widen : ℕ → List Text → List Text
widen c [] = (c ∷ []) ∷ []
widen c (part ∷ parts) = (c ∷ part) ∷ parts

-- `text.split(separator)` for a separator of one character
abbrev pub split : ℕ → Text → List Text
split separator [] = [] ∷ []
split separator (c ∷ text) =
    let rest = split separator text in if same_code c separator then [] ∷ rest else widen c rest

-- the white space and line ends that `trim` removes
abbrev pub is_space : ℕ → Bool
is_space c =
    (leb 9 c && leb c 13)
    || same_code c 32
    || same_code c 160
    || same_code c 5760
    || (leb 8192 c && leb c 8202)
    || same_code c 8232
    || same_code c 8233
    || same_code c 8239
    || same_code c 8287
    || same_code c 12288
    || same_code c 65279

abbrev pub trim_start : Text → Text
trim_start [] = []
trim_start (c ∷ text) = let rest = trim_start text in if is_space c then rest else c ∷ text

-- A character before a text whose end is trimmed already.
abbrev before : ℕ → Text → Text
before c [] = if is_space c then [] else c ∷ []
before c (d ∷ rest) = c ∷ d ∷ rest

abbrev pub trim_end : Text → Text
trim_end [] = []
trim_end (c ∷ text) = before c (trim_end text)

abbrev pub trim : Text → Text
trim text = trim_end (trim_start text)

-- `trim` on a text of the runtime
abbrev pub trim_start_string : String → String
trim_start_string String.[] = String.[]
trim_start_string (String.◌∷◌ c s) =
    let rest = trim_start_string s in if is_space (code c) then rest else String.◌∷◌ c s

abbrev before_string : Char → String → String
before_string c String.[] = if is_space (code c) then String.[] else String.◌∷◌ c String.[]
before_string c (String.◌∷◌ d s) = String.◌∷◌ c (String.◌∷◌ d s)

abbrev pub trim_end_string : String → String
trim_end_string String.[] = String.[]
trim_end_string (String.◌∷◌ c s) = before_string c (trim_end_string s)

abbrev pub trim_string : String → String
trim_string s = trim_end_string (trim_start_string s)

abbrev strip : Bool → Option String → Option String
strip true rest = rest
strip false rest = none

-- `text.slice(prefix.length)` where `text.startsWith(prefix)`
abbrev pub strip_prefix : String → String → Option String
strip_prefix text String.[] = some text
strip_prefix String.[] (String.◌∷◌ p ps) = none
strip_prefix (String.◌∷◌ c text) (String.◌∷◌ p ps) =
    strip (same_code (code c) (code p)) (strip_prefix text ps)
