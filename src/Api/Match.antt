-- ===== src/Api/Match.antt =====
-- What makes a record of Horizon's the payment of a row (payments.service.ts, reconciliation).
use mix_match_onchain.Base.{
  truthy, or_else, ℕ, String, true, false, ◌≤◌, Option, none, some, List, [], ◌∷◌, ◌≡◌, All, ◌⊎◌,
}
use mix_match_onchain.Exec.{Result, ok, err}
use mix_match_onchain.Error.{Error}
use mix_match_onchain.Env.{Env}
use mix_match_onchain.Env.Sdk.{PaymentOperation}
use mix_match_onchain.Api.Rows.{Transaction}
use mix_match_onchain.Api.Reconcile.{is_text, matches_operation, expected_amount}

abbrev pub IsMember : PaymentOperation → List PaymentOperation → Type 0
IsMember a [] = ⊥
IsMember a (x ∷ xs) = (a ≡ x) ⊎ IsMember a xs

-- The asset that the recipient is due: the native one when the row names none, and otherwise the
-- one with the row's code and issuer.
abbrev pub IsDueAsset : (code issuer : Option String) → PaymentOperation → Type 0
IsDueAsset code issuer operation =
    ((truthy code ≡ false) × (operation.asset_type ≡ some "native"))
    ⊎ ((truthy code ≡ true)
        × (is_text operation.asset_type (some "native") ≡ false)
        × (operation.asset_code ≡ code)
        × (operation.asset_issuer ≡ issuer))

-- The record pays the row: it is to the row's recipient, of the amount and the asset that the
-- recipient is due, and not older than the row.
pub record Pays (env : Env) (row : Transaction) (operation : PaymentOperation) : Type 0 where
  pub recipient : operation.to ≡ some row.destination_public_key
  pub amount_due : operation.amount ≡ some (expected_amount env row)
  pub asset_due :
      IsDueAsset
        (or_else row.receive_asset_code row.asset_code)
        (or_else row.receive_asset_issuer row.asset_issuer)
        operation
  pub made_at : ℕ
  pub made : env.parse_date operation.created_at ≡ some made_at
  pub not_older : row.created_at ≤ made_at

-- What was found: nothing, when no record on the page matches the row; or the hash of a record on
-- the page that pays the row.
abbrev pub Found : Env → Transaction → List PaymentOperation → Result Error (Option String) → Type 0
Found env row records (ok none) = All (λ o. matches_operation env row o ≡ false) records
Found env row records (ok (some hash)) =
    (operation : PaymentOperation) × IsMember operation records
    × Pays env row operation
    × (operation.transaction_hash ≡ hash)
Found env row records (err e) = ⊥
