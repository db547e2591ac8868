-- ===== src/Base/Find.antt =====
-- What `find` answers, by its first element, and options apart and alike.
use mathlib.Core.Path.{◌≡◌, refl}
use mathlib.Core.Bool.{Bool, true, false}
use mathlib.Core.Option.{none, some}
use mathlib.Core.List.{List, ◌∷◌}
use mix_match_onchain.Base.Lists.{find}

module _ {A : Type 0} where
  pub none_ne : (a : A) → none ≡ some a → ⊥
  none_ne a e = cc

  pub same_some : (a b : A) → some a ≡ some b → a ≡ b
  same_some a b e = cc

  pub find_here : (p : A → Bool) (a : A) (rows : List A) → p a ≡ true → find p (a ∷ rows) ≡ some a
  find_here p a rows t = rw t refl

  pub find_later :
      (p : A → Bool) (a : A) (rows : List A) → p a ≡ false → find p (a ∷ rows) ≡ find p rows
  find_later p a rows f = rw f refl
