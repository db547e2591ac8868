-- ===== src/Stellar/Errors.antt =====
-- packages/stellar/src/payment-errors.ts: how a failure becomes a `StellarPaymentError`.
use mix_match_onchain.Base.{
  String, Option, none, some, List, [], ◌∷◌, ◌==◌, concat, or_default, is_truthy, if◌then◌else◌,
}
use mix_match_onchain.Error.{
  Error, PaymentErrorKind, StellarPaymentError, ResultCodes, source_account_not_found,
  sequence_conflict, network_mismatch, vault_transit, insufficient_balance, insufficient_fee,
  destination_not_found, destination_requires_trustline, source_requires_trustline,
  issuer_not_found, trustline_limit_exceeded, not_authorized, invalid_trustline_limit,
  no_payment_path, slippage_exceeded, malformed_transaction, validation, timing, network_error,
  unknown, stellar_payment, horizon_not_found, bad_response, plain, database, thrown,
  duplicate_idempotency_key, duplicate_escrow_idempotency_key, soroban_invocation, payment_failed,
  escrow_failed, anchor_error, not_found, conflict, unauthorized, bad_request, forbidden,
  out_of_rounds,
}

-- A record of JavaScript, by its entries.
abbrev pub entry : String → List (String × PaymentErrorKind) → Option PaymentErrorKind
entry code [] = none
entry code ((key, kind) ∷ rest) = if code == key then some kind else entry code rest

abbrev pub transaction_code_kind : List (String × PaymentErrorKind)
transaction_code_kind =
    ("tx_bad_seq", sequence_conflict)
    ∷ ("tx_insufficient_balance", insufficient_balance)
    ∷ ("tx_insufficient_fee", insufficient_fee)
    ∷ ("tx_no_source_account", source_account_not_found)
    ∷ ("tx_too_early", timing)
    ∷ ("tx_too_late", timing)
    ∷ ("tx_bad_auth", malformed_transaction)
    ∷ ("tx_bad_auth_extra", malformed_transaction)
    ∷ ("tx_missing_operation", malformed_transaction)
    ∷ ("tx_not_supported", malformed_transaction)
    ∷ []

abbrev pub operation_code_kind : List (String × PaymentErrorKind)
operation_code_kind =
    ("op_underfunded", insufficient_balance)
    ∷ ("op_low_reserve", insufficient_balance)
    ∷ ("op_no_destination", destination_not_found)
    ∷ ("op_no_trust", destination_requires_trustline)
    ∷ ("op_src_no_trust", source_requires_trustline)
    ∷ ("op_no_issuer", issuer_not_found)
    ∷ ("op_line_full", trustline_limit_exceeded)
    ∷ ("op_not_authorized", not_authorized)
    ∷ ("op_src_not_authorized", not_authorized)
    ∷ ("op_invalid_limit", invalid_trustline_limit)
    ∷ ("op_too_few_offers", no_payment_path)
    ∷ ("op_under_destmin", slippage_exceeded)
    ∷ ("op_over_source_max", slippage_exceeded)
    ∷ ("op_sell_no_trust", source_requires_trustline)
    ∷ ("op_buy_no_trust", destination_requires_trustline)
    ∷ ("op_sell_not_authorized", not_authorized)
    ∷ ("op_buy_not_authorized", not_authorized)
    ∷ ("op_offer_cross_self", malformed_transaction)
    ∷ []

-- `error.message` of an `Error`; `none` for a thrown value that is no `Error`.
abbrev pub message_of : Error → Option String
message_of (stellar_payment e) = some e.message
message_of (horizon_not_found m) = some m
message_of (bad_response m codes) = some m
message_of (plain m) = some m
message_of (database code m) = some m
message_of (thrown text) = none
message_of (duplicate_idempotency_key key) =
    some (concat "A transaction with idempotency key \"" (concat key "\" already exists"))
message_of (duplicate_escrow_idempotency_key key) =
    some (concat "An escrow with idempotency key \"" (concat key "\" already exists"))
message_of (soroban_invocation m) = some m
message_of (payment_failed kind m) = some m
message_of (escrow_failed m) = some m
message_of (anchor_error m) = some m
message_of (not_found m) = some m
message_of (conflict m) = some m
message_of (vault_transit m status) = some m
message_of (network_mismatch endpoint expected actual) = some (
    concat endpoint (
      concat " endpoint serves network \""
        (concat actual (concat "\" but the configured network is \"" (concat expected "\"")))))
message_of (unauthorized m) = some m
message_of (bad_request m) = some m
message_of (forbidden m) = some m
message_of out_of_rounds = none

-- `new StellarPaymentError(kind, message, { cause })`
abbrev pub failure : PaymentErrorKind → String → StellarPaymentError
failure kind message = record {
  kind = kind;
  message = message;
  transaction_code = none;
  operation_codes = none;
  tx_hash = none;
  envelope_xdr = none;
}

-- The loop over the operation codes: the first with a kind.
unfoldable pub first_known : List String → Option (String × PaymentErrorKind)
first_known [] = none
first_known (code ∷ codes) = elim (entry code operation_code_kind) [
  | none ↦ first_known codes
  | some kind ↦ some (code, kind)
]

pub classify_transaction : Option String → List String → StellarPaymentError
classify_transaction none operations =
    failure unknown "Horizon rejected the payment for an unrecognized reason."
classify_transaction (some code) operations =
    if is_truthy code
    then record {
      kind = or_default (entry code transaction_code_kind) unknown;
      message = concat "Payment transaction failed: " code;
      transaction_code = some code;
      operation_codes = some operations;
      tx_hash = none;
      envelope_xdr = none;
    }
    else failure unknown "Horizon rejected the payment for an unrecognized reason."

pub classify_codes :
    Option String → List String → Option (String × PaymentErrorKind) → StellarPaymentError
classify_codes transaction operations none = classify_transaction transaction operations
classify_codes transaction operations (some (code, kind)) = record {
  kind = kind;
  message = concat "Payment operation failed: " code;
  transaction_code = transaction;
  operation_codes = some operations;
  tx_hash = none;
  envelope_xdr = none;
}

pub classify_response : Option ResultCodes → StellarPaymentError
unfolding classify_codes classify_transaction first_known
classify_response none = failure unknown "Horizon rejected the payment for an unrecognized reason."
classify_response (some codes) =
    let operations = or_default codes.operations [] in
    classify_codes codes.transaction operations (first_known operations)

abbrev classify_other : Option String → StellarPaymentError
classify_other none = failure unknown "Unknown error while submitting payment."
classify_other (some message) =
    failure network_error (concat "Failed to reach Stellar network: " message)

-- `classifyStellarPaymentError`
unfoldable pub classify : Error → StellarPaymentError
unfolding classify_response
classify (stellar_payment e) = e
classify (horizon_not_found m) =
    failure source_account_not_found "Source account not found. It may not be funded yet."
classify (bad_response m codes) = classify_response codes
classify error = classify_other (message_of error)

-- `withTransactionContext`
unfoldable pub with_transaction_context :
    StellarPaymentError → Option String → Option String → StellarPaymentError
with_transaction_context error none envelope_xdr = error
with_transaction_context error (some tx_hash) envelope_xdr =
    if is_truthy tx_hash
    then record error { tx_hash = some tx_hash; envelope_xdr = envelope_xdr }
    else error

-- A kind as the text that the API stores and answers.
abbrev pub kind_name : PaymentErrorKind → String
kind_name source_account_not_found = "source_account_not_found"
kind_name sequence_conflict = "sequence_conflict"
kind_name insufficient_balance = "insufficient_balance"
kind_name insufficient_fee = "insufficient_fee"
kind_name destination_not_found = "destination_not_found"
kind_name destination_requires_trustline = "destination_requires_trustline"
kind_name source_requires_trustline = "source_requires_trustline"
kind_name issuer_not_found = "issuer_not_found"
kind_name trustline_limit_exceeded = "trustline_limit_exceeded"
kind_name not_authorized = "not_authorized"
kind_name invalid_trustline_limit = "invalid_trustline_limit"
kind_name no_payment_path = "no_payment_path"
kind_name slippage_exceeded = "slippage_exceeded"
kind_name malformed_transaction = "malformed_transaction"
kind_name validation = "validation"
kind_name timing = "timing"
kind_name network_error = "network_error"
kind_name unknown = "unknown"
