-- ===== src/Error.antt =====
-- The values that the program throws: packages/stellar/src/payment-errors.ts (the class and the
-- kinds), the repositories' duplicate-key errors, the HTTP exceptions of apps/api, and the errors
-- of the libraries as the program tells them apart.
use mix_match_onchain.Base.{ℕ, String, Option, List}

-- `StellarPaymentErrorKind`
pub data PaymentErrorKind : Type 0 where
  source_account_not_found sequence_conflict insufficient_balance insufficient_fee
        destination_not_found destination_requires_trustline source_requires_trustline
        issuer_not_found trustline_limit_exceeded not_authorized invalid_trustline_limit
        no_payment_path slippage_exceeded malformed_transaction validation timing network_error
        unknown :
      PaymentErrorKind

-- `StellarPaymentError`, less its `cause`.
pub record StellarPaymentError : Type 0 where
  pub kind : PaymentErrorKind
  pub message : String
  pub transaction_code : Option String
  pub operation_codes : Option (List String)
  pub tx_hash : Option String
  pub envelope_xdr : Option String

-- `extras.result_codes` of Horizon's answer to a failed submission.
pub record ResultCodes : Type 0 where
  pub transaction : Option String
  pub operations : Option (List String)

pub data Error : Type 0 where
  -- `StellarPaymentError`
  stellar_payment : StellarPaymentError → Error
  -- the SDK's `NotFoundError` and `BadResponseError`, with their messages
  horizon_not_found : String → Error
  bad_response : String → Option ResultCodes → Error
  -- any other `Error`, with its message; the driver's error with its `code` and message
  plain : String → Error
  database : String → String → Error
  -- a thrown value that is no `Error`, with its text
  thrown : String → Error
  -- `DuplicateIdempotencyKeyError`, `DuplicateEscrowIdempotencyKeyError`
  duplicate_idempotency_key : String → Error
  duplicate_escrow_idempotency_key : String → Error
  -- `SorobanInvocationError`
  soroban_invocation : String → Error
  -- the exceptions that become HTTP answers
  payment_failed : PaymentErrorKind → String → Error
  escrow_failed : String → Error
  anchor_error : String → Error
  not_found : String → Error
  conflict : String → Error
  -- `VaultTransitError`, with its message and status
  vault_transit : String → Option ℕ → Error
  -- `StellarNetworkMismatchError`
  network_mismatch : (endpoint expected actual : String) → Error
  unauthorized : String → Error
  bad_request : String → Error
  forbidden : String → Error
  -- no error of the program: the bound on a modelled loop's rounds was too small
  out_of_rounds : Error
