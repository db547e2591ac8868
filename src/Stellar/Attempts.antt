-- ===== src/Stellar/Attempts.antt =====
-- How many times `submitPayment` (packages/stellar/src/payment.ts) hands a payment to Horizon.
use mix_match_onchain.Base.{
  none_ne, same_some, ℕ, zero, suc, String, ◌+◌, ◌-◌, ◌≤◌, Option, none, some, ◌≡◌, refl, sym,
  arith, length, Bool-cases, inl, inr, ap,
}
use mix_match_onchain.Exec.{Result, ok, err, pure, throw}
use mix_match_onchain.Exec.Rules.{Keeps, Keeps-bind, Keeps-lift}
use mix_match_onchain.Error.{Error}
use mix_match_onchain.Env.{Env}
use mix_match_onchain.Env.Sdk.{Envelope, SubmitResult}
use mix_match_onchain.Env.Calls.{Trace}
use mix_match_onchain.Stellar.Errors.{classify}
use mix_match_onchain.Stellar.Net.{Net, ask}
use mix_match_onchain.Stellar.Payment
use mix_match_onchain.Stellar.Payment.{Attempt, SubmitPaymentParams}
use mix_match_onchain.Stellar.Quiet.{
  submissions, IsQuiet, IsQuiet-Submitted, Keeps-ask, Keeps-sign, Keeps-resolve_fee,
}

-- The number of submissions so far.
abbrev pub submitted : Trace → ℕ
submitted t = length (submissions t)

abbrev Within : ℕ → Trace → Net SubmitResult → Type 0
Within bound t m = submitted (m t).1 ≤ bound

Within-same :
    (m n : Net SubmitResult) (bound : ℕ) (t : Trace) → m ≡ n → Within bound t m → Within bound t n
Within-same m n bound t e h = rw (sym e) h

module _ (env : Env) (params : SubmitPaymentParams) where
  Keeps-build_payment :
      {P : Trace → Type 0} → IsQuiet P → Keeps P (Payment.build_payment env params)
  unfolding Payment.attempt
  Keeps-build_payment q = Keeps-bind _ _ (Keeps-ask q env _ _ refl) (λ account.
      Keeps-bind _ _ (Keeps-lift _) (λ _.
        Keeps-bind _ _ (Keeps-resolve_fee q env _)
          (λ fee. Keeps-bind _ _ (Keeps-lift _) (λ transaction. Keeps-sign q env _ _))))

  submit_built_once :
      (built : Result Error Envelope) (t : Trace)
      → submitted (Payment.submit_built env built t).1 ≤ suc (submitted t)
  unfolding Payment.attempt Payment.submit_transaction ask
  submit_built_once (err e) t = omega arith
  submit_built_once (ok transaction) t = omega arith

  attempt_once : (t : Trace) → submitted (Payment.attempt env params t).1 ≤ suc (submitted t)
  unfolding Payment.attempt
  attempt_once t =
      let (r, t') = Payment.build_payment env params t in
      let same = ap length ((Keeps-build_payment (IsQuiet-Submitted (submissions t))).at t refl) in
      let once = submit_built_once r t' in omega arith

  conclude_once :
      (outcome : Result Error SubmitResult) (xdr : Option String) (next : Option (Net SubmitResult))
      (bound : ℕ) (t : Trace)
      → submitted t ≤ bound
      → ((m : Net SubmitResult) → next ≡ some m → submitted (m t).1 ≤ bound)
      → submitted (Payment.conclude env (record { outcome = outcome; envelope_xdr = xdr }) next t).1
        ≤ bound
  unfolding Payment.rounds pure throw
  conclude_once (ok result) xdr next bound t h k = h
  conclude_once (err e) xdr none bound t h k =
      elim (Bool-cases (Payment.is_sequence_conflict (classify e).kind)) [
        | inl c ↦ rw c h
        | inr c ↦ rw c h
      ]
  conclude_once (err e) xdr (some m) bound t h k =
      elim (Bool-cases (Payment.is_sequence_conflict (classify e).kind)) [
        | inl c ↦ rw c (k m refl)
        | inr c ↦ rw c h
      ]

  rounds_bound :
      (left : ℕ) (t : Trace)
      → submitted (Payment.rounds env left params t).1 ≤ suc left + submitted t
  unfolding Payment.rounds
  rounds_bound zero t =
      let (a, t') = Payment.attempt env params t in
      conclude_once a.outcome a.envelope_xdr none (1 + submitted t) t'
        (omega (arith, attempt_once t)) (λ m e. absurd (none_ne m e))
  rounds_bound (suc left) t =
      let (a, t') = Payment.attempt env params t in
      let once = attempt_once t in
      let rest = rounds_bound left t' in
      let next = Payment.rounds env left params in
      conclude_once a.outcome a.envelope_xdr (some next) (suc (suc left) + submitted t) t'
        (omega arith) (λ m e. Within-same next m _ t' (same_some next m e) (omega arith))

abbrev unless_invalid : Env → SubmitPaymentParams → Option Error → Net SubmitResult
unless_invalid env params (some error) = throw error
unless_invalid env params none = Payment.rounds env (env.max_sequence_attempts - 1) params

submit_valid_at_most :
    (env : Env) (params : SubmitPaymentParams) (t : Trace) (invalid : Option Error)
    → 1 ≤ env.max_sequence_attempts
    → submitted (unless_invalid env params invalid t).1 ≤ env.max_sequence_attempts + submitted t
unfolding throw
submit_valid_at_most env params t (some error) h = omega arith
submit_valid_at_most env params t none h =
    let bound = rounds_bound env params (env.max_sequence_attempts - 1) t in omega arith

-- `submitPayment` hands at most `MAX_SEQUENCE_ATTEMPTS` envelopes to Horizon, when that is at least
-- one, whether it returns or throws, and whatever its reading of `this.client` comes to.
pub submit_payment-at_most :
    (env : Env) (params : SubmitPaymentParams) (t : Trace)
    → 1 ≤ env.max_sequence_attempts
    → submitted (Payment.submit_payment env params t).1 ≤ env.max_sequence_attempts + submitted t
unfolding Payment.submit_payment throw
submit_payment-at_most env params t h =
    submit_valid_at_most env params t
      (env.validate_payment_params params.destination_public_key params.amount params.memo
        params.asset)
      h
