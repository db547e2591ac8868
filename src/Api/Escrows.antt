-- ===== src/Api/Escrows.antt =====
-- apps/api/src/modules/payments/escrow.repository.ts
use mix_match_onchain.Base.{
  ℕ, String, Bool, ◌||◌, Option, none, some, [], ◌∷◌, ◌++◌, ◌==◌, find, any, update_where, or_else,
  concat, if◌then◌else◌,
}
use mix_match_onchain.Exec.{Result, ok, err, throw, try_catch}
use mix_match_onchain.Error.{Error, plain, duplicate_escrow_idempotency_key}
use mix_match_onchain.Env.{Env}
use mix_match_onchain.Api.Rows.{Escrow, EscrowStatus, World}
use mix_match_onchain.Api.Store.{App, statement, unique_violation, is_unique_violation}

pub record NewEscrow : Type 0 where
  pub idempotency_key : String
  pub payer_stellar_account_id : String
  pub payee_public_key : String
  pub token_contract_id : String
  pub amount : String

-- The second argument of `updateStatus`; a field that is left out is `none`.
pub record EscrowUpdate : Type 0 where
  pub status : EscrowStatus
  pub on_chain_escrow_id : Option String
  pub timeout_ledger : Option ℕ
  pub deposit_tx_hash : Option String
  pub finalize_tx_hash : Option String
  pub failure_code : Option String
  pub failure_reason : Option String

abbrev pub escrow_row : NewEscrow → String → ℕ → Escrow
escrow_row input id now = record {
  id = id;
  idempotency_key = input.idempotency_key;
  payer_stellar_account_id = input.payer_stellar_account_id;
  payee_public_key = input.payee_public_key;
  token_contract_id = input.token_contract_id;
  amount = input.amount;
  on_chain_escrow_id = none;
  timeout_ledger = none;
  status = EscrowStatus.pending;
  deposit_tx_hash = none;
  finalize_tx_hash = none;
  failure_code = none;
  failure_reason = none;
  created_at = now;
  updated_at = now;
}

unfoldable pub set_escrow : EscrowUpdate → ℕ → Escrow → Escrow
set_escrow update now row = record row {
  status = update.status;
  on_chain_escrow_id = or_else update.on_chain_escrow_id row.on_chain_escrow_id;
  timeout_ledger = or_else update.timeout_ledger row.timeout_ledger;
  deposit_tx_hash = or_else update.deposit_tx_hash row.deposit_tx_hash;
  finalize_tx_hash = or_else update.finalize_tx_hash row.finalize_tx_hash;
  failure_code = or_else update.failure_code row.failure_code;
  failure_reason = or_else update.failure_reason row.failure_reason;
  updated_at = now;
}

abbrev pub has_id : String → Escrow → Bool
has_id id row = row.id == id

abbrev pub has_key : String → Escrow → Bool
has_key key row = row.idempotency_key == key

abbrev pub escrow_clash : Escrow → Escrow → Bool
escrow_clash row other = (other.id == row.id) || (other.idempotency_key == row.idempotency_key)

abbrev updated_escrow : String → Option Escrow → World → Result Error Escrow × World
updated_escrow id none w = (err (plain (concat "Escrow not found: " id)), w)
updated_escrow id (some row) w = (ok row, w)

module _ (env : Env) where
  -- `findById`
  unfoldable pub find_by_id : String → App (Option Escrow)
  find_by_id id = statement env (λ w. (ok (find (has_id id) w.escrows), w))

  -- `findByIdempotencyKey`
  unfoldable pub find_by_idempotency_key : String → App (Option Escrow)
  find_by_idempotency_key key = statement env (λ w. (ok (find (has_key key) w.escrows), w))

  insert : Escrow → App Escrow
  insert row w =
      if any (escrow_clash row) w.escrows
      then (err unique_violation, w)
      else (ok row, record w { escrows = w.escrows ++ (row ∷ []) })

  -- `create`
  unfoldable pub create : NewEscrow → App Escrow
  unfolding insert
  create input =
      try_catch
        (statement env
          (λ w. insert (escrow_row input (env.db_uuid w.trace) (env.db_now w.trace)) w))
        (λ error.
          if is_unique_violation error
          then throw (duplicate_escrow_idempotency_key input.idempotency_key)
          else throw error)

  -- `updateStatus`
  unfoldable pub update_status : String → EscrowUpdate → App Escrow
  update_status id update = statement env (λ w.
      let rows = update_where (has_id id) (set_escrow update (env.date_now w.trace)) w.escrows in
      updated_escrow id (find (has_id id) rows) (record w { escrows = rows }))
