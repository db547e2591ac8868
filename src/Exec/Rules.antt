-- ===== src/Exec/Rules.antt =====
-- Rules for what an action keeps or ensures, one for each way to build an action.
use mix_match_onchain.Base.{◌≡◌, refl, Bool, true, false, if◌then◌else◌}
use mix_match_onchain.Exec.{
  Result, ok, err, Exec, pure, throw, lift, ◌>>=◌, try_catch, continue, recover,
}

-- `m` keeps `P`, whether it returns or throws.
pub record Keeps {E S A : Type 0} (P : S → Type 0) (m : Exec E S A) : Type 0 where
  pub at : (s : S) → P s → P (m s).1

-- From a state in `P`, what `m` settles to and the state that it leaves are in `Q`.
pub record Ensures {E S A : Type 0} (P : S → Type 0) (m : Exec E S A) (Q : Result E A → S → Type 0)
    : Type 0 where
  pub at : (s : S) → P s → Q (m s).0 (m s).1

module _ {E S : Type 0} {P : S → Type 0} where
  module _ {A : Type 0} where
    pub Keeps-pure : (a : A) → Keeps {E = E} P (pure a)
    unfolding pure
    Keeps-pure a = record { at = λ s h. h }

    pub Keeps-throw : (e : E) → Keeps P (throw {A = A} e)
    unfolding throw
    Keeps-throw e = record { at = λ s h. h }

    pub Keeps-lift : (r : Result E A) → Keeps P (lift r)
    unfolding lift
    Keeps-lift r = record { at = λ s h. h }

    pub Keeps-if :
        (b : Bool) (m n : Exec E S A) → Keeps P m → Keeps P n → Keeps P (if b then m else n)
    Keeps-if true m n km kn = km
    Keeps-if false m n km kn = kn

    pub Keeps-if_known :
        (b : Bool) (m n : Exec E S A)
        → (b ≡ true → Keeps P m)
        → (b ≡ false → Keeps P n)
        → Keeps P (if b then m else n)
    Keeps-if_known true m n km kn = km refl
    Keeps-if_known false m n km kn = kn refl

    Keeps-recover :
        (r : Result E A) (h : E → Exec E S A)
        → ((e : E) → Keeps P (h e))
        → (s : S) → P s
        → P (recover r h s).1
    Keeps-recover (ok a) h kh s p = p
    Keeps-recover (err e) h kh s p = (kh e).at s p

    pub Keeps-try :
        (m : Exec E S A) (h : E → Exec E S A)
        → Keeps P m
        → ((e : E) → Keeps P (h e))
        → Keeps P (try_catch m h)
    unfolding try_catch
    Keeps-try m h km kh = record {
      at = λ s p. let (r, s') = m s in Keeps-recover r h kh s' (km.at s p);
    }

  module _ {A B : Type 0} where
    Keeps-continue :
        (r : Result E A) (f : A → Exec E S B)
        → ((a : A) → Keeps P (f a))
        → (s : S) → P s
        → P (continue r f s).1
    Keeps-continue (ok a) f kf s p = (kf a).at s p
    Keeps-continue (err e) f kf s p = p

    pub Keeps-bind :
        (m : Exec E S A) (f : A → Exec E S B)
        → Keeps P m
        → ((a : A) → Keeps P (f a))
        → Keeps P (m >>= f)
    unfolding ◌>>=◌
    Keeps-bind m f km kf = record {
      at = λ s p. let (r, s') = m s in Keeps-continue r f kf s' (km.at s p);
    }

pub ruleset keeps_rules = (Keeps-pure, Keeps-throw, Keeps-lift, Keeps-if, Keeps-try, Keeps-bind)

module _ {E S A B : Type 0} {Q : Result E B → S → Type 0} where
  Ensures-continue :
      (R : Result E A → S → Type 0) (r : Result E A) (f : A → Exec E S B)
      → ((a : A) → Ensures (R (ok a)) (f a) Q)
      → ((e : E) (s : S) → R (err e) s → Q (err e) s)
      → (s : S) → R r s
      → Q (continue r f s).0 (continue r f s).1
  Ensures-continue R (ok a) f kf ke s p = (kf a).at s p
  Ensures-continue R (err e) f kf ke s p = ke e s p

module _ {E S A : Type 0} {Q : Result E A → S → Type 0} where
  Ensures-recover :
      (R : Result E A → S → Type 0) (r : Result E A) (h : E → Exec E S A)
      → ((e : E) → Ensures (R (err e)) (h e) Q)
      → ((a : A) (s : S) → R (ok a) s → Q (ok a) s)
      → (s : S) → R r s
      → Q (recover r h s).0 (recover r h s).1
  Ensures-recover R (ok a) h kh ka s p = ka a s p
  Ensures-recover R (err e) h kh ka s p = (kh e).at s p

module _ {E S : Type 0} {P : S → Type 0} where
  module _ {A B : Type 0} {Q : Result E B → S → Type 0} where
    -- The rest of a block starts from what the first part ensures.
    pub Ensures-bind :
        (R : Result E A → S → Type 0) (m : Exec E S A) (f : A → Exec E S B)
        → Ensures P m R
        → ((a : A) → Ensures (R (ok a)) (f a) Q)
        → ((e : E) (s : S) → R (err e) s → Q (err e) s)
        → Ensures P (m >>= f) Q
    unfolding ◌>>=◌
    Ensures-bind R m f km kf ke = record {
      at = λ s p. let (r, s') = m s in Ensures-continue R r f kf ke s' (km.at s p);
    }

  module _ {A : Type 0} {Q : Result E A → S → Type 0} where
    pub Ensures-try :
        (R : Result E A → S → Type 0) (m : Exec E S A) (h : E → Exec E S A)
        → Ensures P m R
        → ((e : E) → Ensures (R (err e)) (h e) Q)
        → ((a : A) (s : S) → R (ok a) s → Q (ok a) s)
        → Ensures P (try_catch m h) Q
    unfolding try_catch
    Ensures-try R m h km kh ka = record {
      at = λ s p. let (r, s') = m s in Ensures-recover R r h kh ka s' (km.at s p);
    }

    pub Ensures-if :
        (b : Bool) (m n : Exec E S A)
        → (b ≡ true → Ensures P m Q)
        → (b ≡ false → Ensures P n Q)
        → Ensures P (if b then m else n) Q
    Ensures-if true m n km kn = km refl
    Ensures-if false m n km kn = kn refl

    pub Ensures-pure : (a : A) → ((s : S) → P s → Q (ok a) s) → Ensures P (pure a) Q
    unfolding pure
    Ensures-pure a h = record { at = h }

    pub Ensures-throw : (e : E) → ((s : S) → P s → Q (err e) s) → Ensures P (throw e) Q
    unfolding throw
    Ensures-throw e h = record { at = h }

    pub Ensures-weaken :
        {R : Result E A → S → Type 0} (m : Exec E S A)
        → Ensures P m R
        → ((r : Result E A) (s : S) → R r s → Q r s)
        → Ensures P m Q
    Ensures-weaken m k h = record { at = λ s p. h (m s).0 (m s).1 (k.at s p) }

  -- What an action keeps it also ensures.
  pub Ensures-Keeps : {A : Type 0} (m : Exec E S A) → Keeps P m → Ensures P m (λ _ s. P s)
  Ensures-Keeps m k = record { at = k.at }

-- What is ensured and what is kept, together.
pub Ensures-both :
    {E S A : Type 0} {P F : S → Type 0} {Q : Result E A → S → Type 0} (m : Exec E S A)
    → Ensures P m Q
    → Keeps F m
    → Ensures (λ s. P s × F s) m (λ r s. Q r s × F s)
Ensures-both m h k = record { at = λ s p. (h.at s p.0, k.at s p.1) }

-- A stronger precondition.
pub Ensures-from :
    {E S A : Type 0} {P F : S → Type 0} {Q : Result E A → S → Type 0} (m : Exec E S A)
    → ((s : S) → F s → P s)
    → Ensures P m Q
    → Ensures F m Q
Ensures-from m f h = record { at = λ s p. h.at s (f s p) }
