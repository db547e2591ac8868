-- ===== src/Stellar/Payment.antt =====
-- packages/stellar/src/payment.ts: a payment is built, signed and submitted, and tried again with a
-- freshly loaded account after a stale sequence number. The committed file does not load: it
-- declares the class twice, the first around the functions, and names what it does not import. The
-- model is that of its functions with those names bound (`toStellarAsset` to that of assets.ts). The
-- function reads `this.client`, which a function has not: reading it is a parameter, which may be the
-- TypeError that it is where `this` is undefined.
use mix_match_onchain.Base.{
  ℕ, zero, suc, ◌-◌, String, Bool, true, false, Option, none, some, [], ◌∷◌, or_default, is_truthy,
  if◌then◌else◌,
}
use mix_match_onchain.Exec.{Result, ok, err, pure, throw, lift, try_catch, ◌>>=◌, ◌>>◌}
use mix_match_onchain.Error.{
  Error, PaymentErrorKind, sequence_conflict, stellar_payment, horizon_not_found,
}
use mix_match_onchain.Env.{Env}
use mix_match_onchain.Env.Sdk.{StellarAssetRef, Envelope, payment, p70, SubmitResult}
use mix_match_onchain.Env.Calls.{Trace, load_account, submit, find_transaction}
use mix_match_onchain.Stellar.Errors.{classify, with_transaction_context}
use mix_match_onchain.Stellar.Net.{Net, ask}
use mix_match_onchain.Stellar.Wallet.{Wallet, to_stellar_asset, sign}
use mix_match_onchain.Stellar.Fees.{default_transaction_timeout_seconds, resolve_fee}

pub record SubmitPaymentParams : Type 0 where
  pub source_wallet : Wallet
  pub destination_public_key : String
  pub amount : String
  pub memo : Option String
  pub asset : Option StellarAssetRef
  pub timeout_seconds : Option ℕ

-- `if (params.memo) { builder.addMemo(…) }`
abbrev pub text_memo : Option String → Option String
text_memo none = none
text_memo (some memo) = if is_truthy memo then some memo else none

abbrev pub is_sequence_conflict : PaymentErrorKind → Bool
is_sequence_conflict sequence_conflict = true
is_sequence_conflict _ = false

-- The body of `try`, and the value of `envelopeXdr` when it ends. The variable `txHash` is declared
-- beside it and never assigned.
pub record Attempt : Type 0 where
  pub outcome : Result Error SubmitResult
  pub envelope_xdr : Option String

module _ (env : Env) where
  -- `horizon.submitTransaction`, as `{ hash, ledger }`
  unfoldable pub submit_transaction : Envelope → Net SubmitResult
  submit_transaction transaction =
      ask (submit transaction) (λ t. env.submit_transaction t transaction)

  -- From loading the account to the signed transaction.
  pub build_payment : SubmitPaymentParams → Net Envelope
  build_payment params = do
    source_account ←
        ask (load_account params.source_wallet.public_key)
          (λ t. env.load_account t params.source_wallet.public_key)
    lift env.this_client
    fee ← resolve_fee env p70
    transaction ← lift (
        env.build (record {
          source = source_account;
          fee = fee;
          network_passphrase = env.config.network_passphrase;
          operations =
              payment params.destination_public_key (to_stellar_asset params.asset) params.amount
              ∷ [];
          memo = text_memo params.memo;
          timeout_seconds = or_default params.timeout_seconds default_transaction_timeout_seconds;
          signatures = [];
        }))
    sign env params.source_wallet transaction

  pub submit_built : Result Error Envelope → Trace → Attempt × Trace
  submit_built (err e) t = (record { outcome = err e; envelope_xdr = none }, t)
  submit_built (ok transaction) t =
      let (r, t') = submit_transaction transaction t in
      (record { outcome = r; envelope_xdr = some (env.to_xdr transaction) }, t')

  -- The body of `try`.
  unfoldable pub attempt : SubmitPaymentParams → Trace → Attempt × Trace
  unfolding submit_built submit_transaction build_payment
  attempt params t = let (r, t') = build_payment params t in submit_built r t'

  -- What follows an attempt: the result, another round, or the classified error.
  pub conclude : Attempt → Option (Net SubmitResult) → Net SubmitResult
  conclude a next = elim a.outcome [
    | ok result ↦ pure result
    | err error ↦
        or_default (if is_sequence_conflict (classify error).kind then next else none)
          (throw (stellar_payment (with_transaction_context (classify error) none a.envelope_xdr)))
  ]

  -- The loop, by the rounds that `attempt < MAX_SEQUENCE_ATTEMPTS` still allows after this one.
  unfoldable pub rounds : ℕ → SubmitPaymentParams → Net SubmitResult
  unfolding conclude attempt
  rounds zero params t = let (a, t') = attempt params t in conclude a none t'
  rounds (suc left) params t =
      let (a, t') = attempt params t in conclude a (some (rounds left params)) t'

  -- `submitPayment`
  unfoldable pub submit_payment : SubmitPaymentParams → Net SubmitResult
  submit_payment params =
      elim (env.validate_payment_params params.destination_public_key params.amount params.memo
        params.asset) [
          | some error ↦ throw error
          | none ↦ rounds (env.max_sequence_attempts - 1) params
        ]

  -- `lookupPayment`: an unknown hash is an answer, not an error.
  looked_up : Error → Net (Option SubmitResult)
  looked_up (horizon_not_found m) = pure none
  looked_up error = throw (stellar_payment (classify error))

  unfoldable pub lookup_payment : String → Net (Option SubmitResult)
  unfolding looked_up
  lookup_payment hash =
      try_catch
        (do
          found ← ask (find_transaction hash) (λ t. env.find_transaction t hash)
          pure (some found))
        looked_up

  -- `resubmitPayment`
  unfoldable pub resubmit_payment : String → Net SubmitResult
  resubmit_payment envelope_xdr = do
    transaction ← lift (env.from_xdr envelope_xdr env.config.network_passphrase)
    try_catch (submit_transaction transaction) (λ error. throw (
        stellar_payment (
          with_transaction_context (classify error) (some (env.envelope_hash transaction))
            (some envelope_xdr))))
