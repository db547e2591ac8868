-- ===== src/Stellar/Polling.antt =====
-- The rounds of the polling loop (packages/stellar/src/escrow.ts, `submitInvocation`).
use mix_match_onchain.Base.{
  ℕ, zero, suc, ◌+◌, ◌*◌, ◌≤◌, ◌<◌, String, true, ◌≡◌, refl, arith, Bool-cases, inl, inr, ◌∷◌,
}
use mix_match_onchain.Exec.{Result, ok, err, continue, ◌>>=◌}
use mix_match_onchain.Error.{Error}
use mix_match_onchain.Env.{Env}
use mix_match_onchain.Env.Sdk.{TransactionOutcome, not_found, success, failed}
use mix_match_onchain.Env.Calls.{Trace, poll, sleep}
use mix_match_onchain.Stellar.Net.{Net, ask}
use mix_match_onchain.Stellar.Contract.{
  poll_until, look, wait, poll_rounds, poll_interval_ms, poll_timeout_ms, timed_out,
}

-- The clock counts a wait of one interval and the look that follows it.
pub record CountsWaits (env : Env) : Type 0 where
  pub waited :
      (t : Trace) (hash : String)
      → poll_interval_ms + env.date_now t ≤ env.date_now (poll hash ∷ sleep poll_interval_ms ∷ t)

continue-same :
    {A B : Type 0} (r : Result Error A) (f g : A → Net B) (t : Trace)
    → ((a : A) → f a t ≡ g a t)
    → continue r f t ≡ continue r g t
continue-same (ok a) f g t h = h a
continue-same (err e) f g t h = refl

module _ (env : Env) (c : CountsWaits env) (method : String) (start : ℕ) (hash : String) where
  abbrev Reaches : ℕ → Trace → Type 0
  Reaches left t = poll_timeout_ms + start < env.date_now t + left * poll_interval_ms

  last_round : (t : Trace) → Reaches 0 t → timed_out env start t ≡ true
  last_round t h = ground arith

  next_round :
      (left : ℕ) (t : Trace)
      → Reaches (suc left) t
      → Reaches left (poll hash ∷ sleep poll_interval_ms ∷ t)
  next_round left t h = omega (arith, c.waited t hash)

  -- Two numbers of rounds that both reach the timeout come to the same.
  enough :
      (a b : ℕ) (outcome : TransactionOutcome) (t : Trace)
      → Reaches a t
      → Reaches b t
      → poll_until env (suc a) method start hash outcome t
        ≡ poll_until env (suc b) method start hash outcome t
  unfolding poll_until ask look wait ◌>>=◌
  enough a b (success value) t h k = refl
  enough a b failed t h k = refl
  enough zero b not_found t h k = rw (last_round t h) refl
  enough (suc a) zero not_found t h k = rw (last_round t k) refl
  enough (suc a) (suc b) not_found t h k = elim (Bool-cases (timed_out env start t)) [
    | inl e ↦ rw e refl
    | inr e ↦ rw e (
        continue-same (env.get_transaction (sleep poll_interval_ms ∷ t) hash)
          (λ o. poll_until env (suc a) method start hash o)
          (λ o. poll_until env (suc b) method start hash o) (poll hash ∷ sleep poll_interval_ms ∷ t)
          (λ o. enough a b o _ (next_round a t h) (next_round b t k)))
  ]

few_rounds : poll_rounds ≤ 0 → ⊥
few_rounds h = omega arith

-- With a clock that counts each wait and is not behind the loop's start, every number of rounds
-- from `poll_rounds` on comes to the same: the timeout ends the loop before they run out.
pub poll_until-poll_rounds :
    (env : Env) (method hash : String) (start rounds : ℕ) (outcome : TransactionOutcome) (t : Trace)
    → CountsWaits env
    → start ≤ env.date_now t
    → poll_rounds ≤ rounds
    → poll_until env rounds method start hash outcome t
      ≡ poll_until env poll_rounds method start hash outcome t
poll_until-poll_rounds env method hash start (suc rounds) outcome t c s h =
    enough env c method start hash rounds 31 outcome t (omega arith) (omega arith)
poll_until-poll_rounds env method hash start zero outcome t c s h = absurd (few_rounds h)
