-- ===== src/Api/Transactions.antt =====
-- apps/api/src/modules/payments/transaction.repository.ts
use mix_match_onchain.Base.{
  ℕ, ◌-◌, ◌*◌, String, Bool, true, false, ◌&&◌, ◌||◌, Option, none, some, List, [], ◌∷◌, ◌++◌, ◌==◌,
  ltb, find, any, select, take, drop, length, update_where, or_else, truthy, concat, if◌then◌else◌,
}
use mix_match_onchain.Exec.{Result, ok, err, throw, try_catch, ◌>>=◌, pure}
use mix_match_onchain.Error.{Error, plain, duplicate_idempotency_key}
use mix_match_onchain.Env.{Env}
use mix_match_onchain.Api.Rows.{Transaction, TransactionStatus, pending, pending_signature, World}
use mix_match_onchain.Api.Store.{App, statement, unique_violation, is_unique_violation}

-- The argument of `create`.
pub record NewTransaction : Type 0 where
  pub idempotency_key : String
  pub stellar_account_id : String
  pub destination_public_key : String
  pub amount : String
  pub memo : Option String
  pub asset_code : Option String
  pub asset_issuer : Option String
  pub receive_asset_code : Option String
  pub receive_asset_issuer : Option String
  pub dest_amount : Option String
  pub pending_envelope_xdr : Option String

-- The second argument of `updateStatus`; a field that is left out is `none`.
pub record StatusUpdate : Type 0 where
  pub status : TransactionStatus
  pub stellar_tx_hash : Option String
  pub failure_code : Option String
  pub failure_reason : Option String
  pub clear_pending_envelope : Bool

pub record TransactionPage : Type 0 where
  pub transactions : List Transaction
  pub total : ℕ

-- The values that `create` inserts, with the defaults of the columns.
abbrev pub transaction_row : NewTransaction → String → ℕ → Transaction
transaction_row input id now = record {
  id = id;
  idempotency_key = input.idempotency_key;
  stellar_account_id = input.stellar_account_id;
  destination_public_key = input.destination_public_key;
  amount = input.amount;
  memo = input.memo;
  asset_code = input.asset_code;
  asset_issuer = input.asset_issuer;
  receive_asset_code = input.receive_asset_code;
  receive_asset_issuer = input.receive_asset_issuer;
  dest_amount = input.dest_amount;
  pending_envelope_xdr = input.pending_envelope_xdr;
  status = if truthy input.pending_envelope_xdr then pending_signature else pending;
  stellar_tx_hash = none;
  failure_code = none;
  failure_reason = none;
  created_at = now;
  updated_at = now;
}

-- The columns that `updateStatus` sets; a field that is undefined leaves its column alone.
unfoldable pub set_status : StatusUpdate → ℕ → Transaction → Transaction
set_status update now row = record row {
  status = update.status;
  stellar_tx_hash = or_else update.stellar_tx_hash row.stellar_tx_hash;
  failure_code = or_else update.failure_code row.failure_code;
  failure_reason = or_else update.failure_reason row.failure_reason;
  pending_envelope_xdr = if update.clear_pending_envelope then none else row.pending_envelope_xdr;
  updated_at = now;
}

abbrev pub has_id : String → Transaction → Bool
has_id id row = row.id == id

abbrev pub has_key : String → Transaction → Bool
has_key key row = row.idempotency_key == key

-- The row's id and its idempotency key are each unique in the table.
abbrev pub transaction_clash : Transaction → Transaction → Bool
transaction_clash row other = (other.id == row.id) || (other.idempotency_key == row.idempotency_key)

abbrev pub is_pending : TransactionStatus → Bool
is_pending pending = true
is_pending _ = false

abbrev pub is_pending_signature : TransactionStatus → Bool
is_pending_signature pending_signature = true
is_pending_signature _ = false

abbrev pub updated_transaction :
    String → Option Transaction → World → Result Error Transaction × World
updated_transaction id none w = (err (plain (concat "Transaction not found: " id)), w)
updated_transaction id (some row) w = (ok row, w)

-- `orderBy(desc(createdAt))`
pub insert_desc : Transaction → List Transaction → List Transaction
insert_desc row [] = row ∷ []
insert_desc row (other ∷ rest) =
    if ltb row.created_at other.created_at then other ∷ insert_desc row rest else row ∷ other ∷ rest

pub newest_first : List Transaction → List Transaction
newest_first [] = []
newest_first (row ∷ rows) = insert_desc row (newest_first rows)

module _ (env : Env) where
  -- `findById`
  unfoldable pub find_by_id : String → App (Option Transaction)
  find_by_id id = statement env (λ w. (ok (find (has_id id) w.transactions), w))

  -- `findByIdempotencyKey`
  unfoldable pub find_by_idempotency_key : String → App (Option Transaction)
  find_by_idempotency_key key = statement env (λ w. (ok (find (has_key key) w.transactions), w))

  pub insert : Transaction → App Transaction
  insert row w =
      if any (transaction_clash row) w.transactions
      then (err unique_violation, w)
      else (ok row, record w { transactions = w.transactions ++ (row ∷ []) })

  -- `create`
  unfoldable pub create : NewTransaction → App Transaction
  unfolding insert
  create input =
      try_catch
        (statement env
          (λ w. insert (transaction_row input (env.db_uuid w.trace) (env.db_now w.trace)) w))
        (λ error.
          if is_unique_violation error
          then throw (duplicate_idempotency_key input.idempotency_key)
          else throw error)

  -- `updateStatus`
  unfoldable pub update_status : String → StatusUpdate → App Transaction
  update_status id update = statement env (λ w.
      let rows =
        update_where (has_id id) (set_status update (env.date_now w.trace)) w.transactions in
      updated_transaction id (find (has_id id) rows) (record w { transactions = rows }))

  -- `listByStellarAccountId`
  unfoldable pub list_by_stellar_account_id : String → ℕ → ℕ → App TransactionPage
  unfolding newest_first insert_desc
  list_by_stellar_account_id account_id page limit = do
    rows ← statement env (λ w. (
      ok (
          take limit (
            drop ((page - 1) * limit) (
              newest_first (select (λ row. row.stellar_account_id == account_id) w.transactions)))),
      w,
    ))
    total ← statement env (λ w.
        (ok (length (select (λ row. row.stellar_account_id == account_id) w.transactions)), w))
    pure (record { transactions = rows; total = total })

  -- `findPendingSignature`
  unfoldable pub find_pending_signature : App (List Transaction)
  unfolding newest_first insert_desc
  find_pending_signature =
      statement env (λ w.
        (ok (newest_first (select (λ row. is_pending_signature row.status) w.transactions)), w))

  -- `findPendingByStellarAccountId`, in the order of insertion
  unfoldable pub find_pending_by_stellar_account_id : String → App (List Transaction)
  find_pending_by_stellar_account_id account_id = statement env (λ w. (
    ok (
        select (λ row. (row.stellar_account_id == account_id) && is_pending row.status)
          w.transactions),
    w,
  ))

  -- `findStalePending`
  unfoldable pub find_stale_pending : ℕ → App (List Transaction)
  find_stale_pending older_than = statement env (λ w. (
    ok (select (λ row. is_pending row.status && ltb row.created_at older_than) w.transactions),
    w,
  ))
