-- ===== src/Base/Split.antt =====
-- Texts without a colon, and what splitting at colons gives.
use Prim.Native.Nat.{ℕ}
use mathlib.Core.Path.{◌≡◌, refl, ap}
use mathlib.Core.Logic.{◌≢◌}
use mathlib.Core.Bool.{false}
use mathlib.Core.List.{[], ◌∷◌, ◌++◌}
use native.Mathlib.Omega.{arith}
use mix_match_onchain.Base.Lists.{All}
use mix_match_onchain.Base.Codes.{Text, same_code, split, widen}

-- No colon.
abbrev pub NoColon : Text → Type 0
NoColon = All (λ c. c ≢ 58)

pub other_code : (c : ℕ) → c ≢ 58 → same_code c 58 ≡ false
other_code c n = ground arith

pub split-part :
    (part rest : Text) → NoColon part → split 58 (part ++ 58 ∷ rest) ≡ part ∷ split 58 rest
split-part [] rest h = refl
split-part (c ∷ part) rest h = rw (other_code c h.0) (ap (widen c) (split-part part rest h.1))

pub split-last : (part : Text) → NoColon part → split 58 part ≡ part ∷ []
split-last [] h = refl
split-last (c ∷ part) h = rw (other_code c h.0) (ap (widen c) (split-last part h.1))
