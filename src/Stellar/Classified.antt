-- ===== src/Stellar/Classified.antt =====
-- Which of Horizon's result codes names the failure (packages/stellar/src/payment-errors.ts).
use mix_match_onchain.Base.{
  String, Option, none, some, List, [], ◌∷◌, ◌++◌, ◌≡◌, ◌∙◌, refl, ap, All, concat,
}
use mix_match_onchain.Error.{PaymentErrorKind, bad_response}
use mix_match_onchain.Stellar.Errors.{
  entry, operation_code_kind, first_known, classify_codes, classify,
}

abbrev IsUnknown : String → Type 0
IsUnknown code = entry code operation_code_kind ≡ none

first_known_here :
    (code : String) (kind : PaymentErrorKind) (rest : List String)
    → entry code operation_code_kind ≡ some kind
    → first_known (code ∷ rest) ≡ some (code, kind)
unfolding first_known
first_known_here code kind rest e = rw (e, first_known) refl

first_known_later :
    (code : String) (rest : List String)
    → IsUnknown code
    → first_known (code ∷ rest) ≡ first_known rest
unfolding first_known
first_known_later code rest e = rw (e, first_known) refl

first_known_append :
    (before : List String) (code : String) (kind : PaymentErrorKind) (rest : List String)
    → All IsUnknown before
    → entry code operation_code_kind ≡ some kind
    → first_known (before ++ (code ∷ rest)) ≡ some (code, kind)
first_known_append [] code kind rest u e = first_known_here code kind rest e
first_known_append (c ∷ before) code kind rest u e =
    first_known_later c (before ++ (code ∷ rest)) u.0
    ∙ first_known_append before code kind rest u.1 e

-- Horizon's rejection is classified by the first operation code with an entry: neither the codes
-- before it, which have none, nor the transaction's code, nor the codes after it change the kind or
-- the message; all codes are passed on.
pub classify-first_known :
    (message : String) (transaction : Option String) (before : List String) (code : String)
    (kind : PaymentErrorKind) (rest : List String)
    → All IsUnknown before
    → entry code operation_code_kind ≡ some kind
    → classify (
        bad_response message (
          some (record { transaction = transaction; operations = some (before ++ (code ∷ rest)) })))
      ≡ record {
        kind = kind;
        message = concat "Payment operation failed: " code;
        transaction_code = transaction;
        operation_codes = some (before ++ (code ∷ rest));
        tx_hash = none;
        envelope_xdr = none;
      }
unfolding classify
classify-first_known message transaction before code kind rest u e =
    ap (classify_codes transaction (before ++ (code ∷ rest)))
      (first_known_append before code kind rest u e)
