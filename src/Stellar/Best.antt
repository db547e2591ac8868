-- ===== src/Stellar/Best.antt =====
-- Which of Horizon's paths becomes the quote (packages/stellar/src/path-payment.ts).
use mathlib.Core.Path.{subst}
use mix_match_onchain.Base.{
  String, Bool, true, false, Option, none, some, List, [], ◌∷◌, ◌≡◌, refl, sym, All, Bool-cases,
  inl, inr, ◌⊎◌,
}
use mix_match_onchain.Exec.{ok, try_catch, pure, ◌>>=◌}
use mix_match_onchain.Stellar.Net.{ask, classified}
use mix_match_onchain.Env.{Env}
use mix_match_onchain.Env.Sdk.{StellarAssetRef, PathRecord}
use mix_match_onchain.Env.Calls.{Trace}
use mix_match_onchain.Stellar.Wallet.{to_stellar_asset}
use mix_match_onchain.Stellar.PathPayment.{
  best, more_received, less_sent, send_quote, receive_quote, find_strict_send_path,
  find_strict_receive_path,
}

-- On the numbers that are finite, `greater` is a strict order whose complement is transitive, as
-- `>` is in JavaScript.
pub record IsOrder (env : Env) : Type 0 where
  pub asym :
      (x y : env.Num)
      → env.is_finite x ≡ true
      → env.is_finite y ≡ true
      → env.greater x y ≡ true
      → env.greater y x ≡ false
  pub through :
      (x y z : env.Num)
      → env.is_finite x ≡ true
      → env.is_finite y ≡ true
      → env.is_finite z ≡ true
      → env.greater x y ≡ false
      → env.greater y z ≡ false
      → env.greater x z ≡ false
  pub irrefl : (x : env.Num) → env.is_finite x ≡ true → env.greater x x ≡ false

-- The records' amounts are numbers that are finite.
abbrev pub IsReceived : Env → PathRecord → Type 0
IsReceived env r = env.is_finite (env.number r.destination_amount) ≡ true

abbrev pub IsSent : Env → PathRecord → Type 0
IsSent env r = env.is_finite (env.number r.source_amount) ≡ true

-- `>` on the amounts: the first record delivers more, or costs less, than the second.
abbrev pub delivers_more : Env → PathRecord → PathRecord → Bool
delivers_more env a b =
    env.greater (env.number a.destination_amount) (env.number b.destination_amount)

abbrev pub costs_less : Env → PathRecord → PathRecord → Bool
costs_less env a b = env.greater (env.number b.source_amount) (env.number a.source_amount)

-- `beats` is a strict order whose complement is transitive, on the records in `P`.
record Orders (P : PathRecord → Type 0) (beats : PathRecord → PathRecord → Bool) : Type 0 where
  asym : (a b : PathRecord) → P a → P b → beats a b ≡ true → beats b a ≡ false
  through :
      (a b c : PathRecord)
      → P a
      → P b
      → P c
      → beats a b ≡ false
      → beats b c ≡ false
      → beats a c ≡ false
  irrefl : (a : PathRecord) → P a → beats a a ≡ false

abbrev pub IsOneOf : PathRecord → List PathRecord → Type 0
IsOneOf a [] = ⊥
IsOneOf a (x ∷ xs) = (a ≡ x) ⊎ IsOneOf a xs

-- `r` is one of the records, and none of them beats it.
abbrev pub IsBest : (PathRecord → PathRecord → Bool) → List PathRecord → PathRecord → Type 0
IsBest beats records r = IsOneOf r records × All (λ x. beats x r ≡ false) records

-- No best of nothing; otherwise the best of the records.
abbrev pub Chosen : (PathRecord → PathRecord → Bool) → List PathRecord → Option PathRecord → Type 0
Chosen beats [] chosen = chosen ≡ none
Chosen beats (r ∷ rs) chosen = (k : PathRecord) × (chosen ≡ some k) × IsBest beats (r ∷ rs) k

module _ (P : PathRecord → Type 0) (beats : PathRecord → PathRecord → Bool)
    (o : Orders P beats) where
  of_one : (m : PathRecord) (rs : List PathRecord) → All P rs → IsOneOf m rs → P m
  of_one m [] h x = absurd x
  of_one m (r ∷ rs) h (inl e) = subst P (sym e) h.0
  of_one m (r ∷ rs) h (inr later) = of_one m rs h.1 later

  -- The record that lost stays in the list, and still beats nothing.
  swap_out :
      (k x m : PathRecord) (rs : List PathRecord)
      → All P (k ∷ x ∷ rs)
      → beats x k ≡ false
      → IsBest beats (k ∷ rs) m
      → IsBest beats (k ∷ x ∷ rs) m
  swap_out k x m rs h e (one, all) =
      let p = of_one m (k ∷ rs) (h.0, h.1.1) one in
      (still one, (all.0, (o.through x k m h.1.0 h.0 p e all.0, all.1)))
    where
      still : IsOneOf m (k ∷ rs) → IsOneOf m (k ∷ x ∷ rs)
      still (inl s) = inl s
      still (inr s) = inr (inr s)

  swap_in :
      (k x m : PathRecord) (rs : List PathRecord)
      → All P (k ∷ x ∷ rs)
      → beats x k ≡ true
      → IsBest beats (x ∷ rs) m
      → IsBest beats (k ∷ x ∷ rs) m
  swap_in k x m rs h e (one, all) =
      let p = of_one m (x ∷ rs) h.1 one in
      (inr one, (o.through k x m h.0 h.1.0 p (o.asym x k h.1.0 h.0 e) all.0, all))

  best_of_kept :
      (k : PathRecord) (rs : List PathRecord)
      → All P (k ∷ rs)
      → Chosen beats (k ∷ rs) (best beats (some k) rs)
  unfolding best
  best_of_kept k [] h = (k, refl, (inl refl, (o.irrefl k h.0, tt)))
  best_of_kept k (x ∷ rs) h = elim (Bool-cases (beats x k)) [
    | inl e ↦ rw e (let (m, found, b) = best_of_kept x rs h.1 in (m, found, swap_in k x m rs h e b))
    | inr e ↦
        rw e (
          let (m, found, b) = best_of_kept k rs (h.0, h.1.1) in (m, found, swap_out k x m rs h e b))
  ]

  Chosen-best :
      (records : List PathRecord) → All P records → Chosen beats records (best beats none records)
  unfolding best
  Chosen-best [] h = refl
  Chosen-best (r ∷ rs) h = best_of_kept r rs h

Orders-delivers_more : (env : Env) → IsOrder env → Orders (IsReceived env) (more_received env)
unfolding more_received
Orders-delivers_more env o = record {
  asym = λ a b p q. o.asym _ _ p q;
  through = λ a b c p q r. o.through _ _ _ p q r;
  irrefl = λ a p. o.irrefl _ p;
}

Orders-costs_less : (env : Env) → IsOrder env → Orders (IsSent env) (less_sent env)
unfolding less_sent
Orders-costs_less env o = record {
  asym = λ a b p q. o.asym _ _ q p;
  through = λ a b c p q r e f. o.through _ _ _ r q p f e;
  irrefl = λ a p. o.irrefl _ p;
}

-- Where `>` is an order on finite numbers, and every record that Horizon answers delivers a finite
-- amount, `findStrictSendPath` answers with the quote of a record that delivers the most, or with
-- no quote when Horizon answers with no record.
pub find_strict_send_path-Chosen :
    (env : Env) (source dest : Option StellarAssetRef) (amount : String) (t : Trace)
    (records : List PathRecord)
    → IsOrder env
    → All (IsReceived env) records
    → env.strict_send_paths t (to_stellar_asset source) amount (to_stellar_asset dest ∷ [])
      ≡ ok records
    → (chosen : Option PathRecord) × ((find_strict_send_path env source dest amount t).0
        ≡ ok (send_quote env source dest amount chosen))
      × Chosen (delivers_more env) records chosen
unfolding find_strict_send_path try_catch ask classified pure ◌>>=◌ more_received
find_strict_send_path-Chosen env source dest amount t records o h e = (
  best (more_received env) none records,
  rw e refl,
  Chosen-best (IsReceived env) (more_received env) (Orders-delivers_more env o) records h,
)

-- Where `>` is an order on finite numbers, and every record that Horizon answers costs a finite
-- amount, `findStrictReceivePath` answers with the quote of a record that costs the least, or with
-- no quote when Horizon answers with no record.
pub find_strict_receive_path-Chosen :
    (env : Env) (source dest : Option StellarAssetRef) (amount : String) (t : Trace)
    (records : List PathRecord)
    → IsOrder env
    → All (IsSent env) records
    → env.strict_receive_paths t (to_stellar_asset source ∷ []) (to_stellar_asset dest) amount
      ≡ ok records
    → (chosen : Option PathRecord) × ((find_strict_receive_path env source dest amount t).0
        ≡ ok (receive_quote env source dest amount chosen))
      × Chosen (costs_less env) records chosen
unfolding find_strict_receive_path try_catch ask classified pure ◌>>=◌ less_sent
find_strict_receive_path-Chosen env source dest amount t records o h e = (
  best (less_sent env) none records,
  rw e refl,
  Chosen-best (IsSent env) (less_sent env) (Orders-costs_less env o) records h,
)
