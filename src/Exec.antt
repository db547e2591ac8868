-- ===== src/Exec.antt =====
-- Asynchronous methods that change state and may throw. The state comes back beside an error too,
-- since what was written before a `throw` stays written.
pub mod Rules
use mix_match_onchain.Base.{◌≡◌, refl, Bool, Option, none, some, List, [], ◌∷◌, if◌then◌else◌}

-- What a promise settles to: a value, or a thrown value of type `E`.
pub data Result (E A : Type 0) : Type 0 where
  ok : A → Result E A
  err : E → Result E A

abbrev pub Exec : Type 0 → Type 0 → Type 0 → Type 0
Exec E S A = S → Result E A × S

module _ {E S : Type 0} where
  abbrev pub continue : {A B : Type 0} → Result E A → (A → Exec E S B) → Exec E S B
  continue (ok a) f s = f a s
  continue (err e) f s = (err e, s)

  abbrev pub recover : {A : Type 0} → Result E A → (E → Exec E S A) → Exec E S A
  recover (ok a) h s = (ok a, s)
  recover (err e) h s = h e s

  module _ {A : Type 0} where
    unfoldable pub pure : A → Exec E S A
    pure a s = (ok a, s)

    unfoldable pub throw : E → Exec E S A
    throw e s = (err e, s)

    unfoldable pub lift : Result E A → Exec E S A
    lift r s = (r, s)

    -- `try { m } catch (error) { h }`
    unfoldable pub try_catch : Exec E S A → (E → Exec E S A) → Exec E S A
    try_catch m h s = let (r, s') = m s in recover r h s'

  module _ {A B : Type 0} where
    infixl 5 ◌>>=◌ ◌>>◌
    unfoldable pub ◌>>=◌ : Exec E S A → (A → Exec E S B) → Exec E S B
    ◌>>=◌ m f s = let (r, s') = m s in continue r f s'

    abbrev pub ◌>>◌ : Exec E S A → Exec E S B → Exec E S B
    m >> n = m >>= λ _. n
