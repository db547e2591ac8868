-- ===== src/Base/Texts.antt =====
-- Equality of texts as a test and as a path, and a test that cannot have both answers.
use Prim.Native.String.{String}
use mathlib.Core.Path.{◌≡◌}
use mathlib.Core.Bool.{Bool, true, false}
use native.Mathlib.Omega.{arith}
use text.Mathlib.Text.{◌==◌}
use text.Mathlib.TextEquality.{eq_iff}

pub equal_text : (s t : String) → (s == t) ≡ true → s ≡ t
equal_text s t e = ground (arith, eq_iff s t)

pub same_text_true : (s t : String) → s ≡ t → (s == t) ≡ true
same_text_true s t e = ground (arith, eq_iff s t)

pub true_ne : (b : Bool) → b ≡ true → b ≡ false → ⊥
true_ne b t f = cc
