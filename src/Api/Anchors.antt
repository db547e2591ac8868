-- ===== src/Api/Anchors.antt =====
-- apps/api/src/modules/payments/anchor-transaction.repository.ts
use mix_match_onchain.Base.{
  ℕ, ◌-◌, ◌*◌, String, Bool, true, false, ◌&&◌, ◌||◌, Option, none, some, List, [], ◌∷◌, ◌++◌, ◌==◌,
  find, any, select, take, drop, length, leb, update_where, or_else, concat, if◌then◌else◌,
}
use mix_match_onchain.Exec.{Result, ok, err, pure, lift, ◌>>=◌}
use mix_match_onchain.Error.{Error, plain}
use mix_match_onchain.Env.{Env}
use mix_match_onchain.Env.Web.{AnchorKind, AnchorStatus}
use mix_match_onchain.Stellar.Sep.Transfer.{has}
use mix_match_onchain.Api.Rows.{AnchorTransaction, World}
use mix_match_onchain.Api.Store.{App, statement, unique_violation}

-- A date of JavaScript, which may be invalid.
pub data Date : Type 0 where
  at : ℕ → Date
  invalid : Date

-- The argument of `create`; a field that is left out is `none`.
pub record NewAnchorTransaction : Type 0 where
  pub stellar_account_id : String
  pub kind : AnchorKind
  pub asset_code : String
  pub home_domain : String
  pub sep24_transaction_id : String
  pub status : AnchorStatus
  pub interactive_url : Option String
  pub more_info_url : Option String
  pub amount_in : Option String
  pub amount_out : Option String
  pub stellar_transaction_id : Option String
  pub external_transaction_id : Option String
  pub message : Option String
  pub started_at : Date
  pub completed_at : Option Date

-- The second argument of `updateFromAnchor`; a field that is left out is `none`.
pub record AnchorUpdate : Type 0 where
  pub status : AnchorStatus
  pub amount_in : Option String
  pub amount_out : Option String
  pub stellar_transaction_id : Option String
  pub external_transaction_id : Option String
  pub message : Option String
  pub completed_at : Option Date

-- `AnchorTransactionPage`
pub record AnchorTransactionPage : Type 0 where
  pub transactions : List AnchorTransaction
  pub total : ℕ

-- A date in a statement: the driver takes `toISOString()`, which throws on an invalid date.
abbrev pub driver_date : Date → Result Error ℕ
driver_date (at t) = ok t
driver_date invalid = err (plain "Invalid time value")

abbrev pub just : Result Error ℕ → Result Error (Option ℕ)
just (ok t) = ok (some t)
just (err e) = err e

abbrev pub driver_date_or_none : Option Date → Result Error (Option ℕ)
driver_date_or_none none = ok none
driver_date_or_none (some date) = just (driver_date date)

abbrev pub anchor_row : NewAnchorTransaction → ℕ → Option ℕ → String → ℕ → AnchorTransaction
anchor_row input started completed id now = record {
  id = id;
  stellar_account_id = input.stellar_account_id;
  kind = input.kind;
  asset_code = input.asset_code;
  home_domain = input.home_domain;
  sep24_transaction_id = input.sep24_transaction_id;
  status = input.status;
  interactive_url = input.interactive_url;
  more_info_url = input.more_info_url;
  amount_in = input.amount_in;
  amount_out = input.amount_out;
  stellar_transaction_id = input.stellar_transaction_id;
  external_transaction_id = input.external_transaction_id;
  message = input.message;
  started_at = started;
  completed_at = completed;
  created_at = now;
  updated_at = now;
}

unfoldable pub set_anchor : AnchorUpdate → Option ℕ → ℕ → AnchorTransaction → AnchorTransaction
set_anchor update completed now row = record row {
  status = update.status;
  amount_in = or_else update.amount_in row.amount_in;
  amount_out = or_else update.amount_out row.amount_out;
  stellar_transaction_id = or_else update.stellar_transaction_id row.stellar_transaction_id;
  external_transaction_id = or_else update.external_transaction_id row.external_transaction_id;
  message = or_else update.message row.message;
  completed_at = or_else completed row.completed_at;
  updated_at = now;
}

abbrev pub has_id : String → AnchorTransaction → Bool
has_id id row = row.id == id

abbrev pub of_account : String → AnchorTransaction → Bool
of_account account_id row = row.stellar_account_id == account_id

-- The primary key, and the unique column `sep24_transaction_id`.
abbrev pub anchor_clash : AnchorTransaction → AnchorTransaction → Bool
anchor_clash row other =
    (other.id == row.id) || (other.sep24_transaction_id == row.sep24_transaction_id)

-- `ORDER BY created_at DESC`
insert_desc : AnchorTransaction → List AnchorTransaction → List AnchorTransaction
insert_desc row [] = row ∷ []
insert_desc row (other ∷ rows) =
    let later = insert_desc row rows in
    if leb other.created_at row.created_at then row ∷ other ∷ rows else other ∷ later

newest_first : List AnchorTransaction → List AnchorTransaction
newest_first [] = []
newest_first (row ∷ rows) = insert_desc row (newest_first rows)

abbrev pub updated_anchor :
    String → Option AnchorTransaction → World → Result Error AnchorTransaction × World
updated_anchor id none w = (err (plain (concat "Anchor transaction not found: " id)), w)
updated_anchor id (some row) w = (ok row, w)

abbrev pub inserted : AnchorTransaction → Bool → World → Result Error AnchorTransaction × World
inserted row true w = (err unique_violation, w)
inserted row false w = (ok row, record w { anchors = w.anchors ++ (row ∷ []) })

module _ (env : Env) where
  -- `findById`
  unfoldable pub find_by_id : String → App (Option AnchorTransaction)
  find_by_id id = statement env (λ w. (ok (find (has_id id) w.anchors), w))

  insert : AnchorTransaction → App AnchorTransaction
  insert row w = inserted row (any (anchor_clash row) w.anchors) w

  -- `create`: a clash is thrown as the driver throws it.
  unfoldable pub create : NewAnchorTransaction → App AnchorTransaction
  unfolding insert
  create input = do
    started ← lift (driver_date input.started_at)
    completed ← lift (driver_date_or_none input.completed_at)
    statement env (λ w.
        insert (anchor_row input started completed (env.db_uuid w.trace) (env.db_now w.trace)) w)

  -- `updateFromAnchor`
  unfoldable pub update_from_anchor : String → AnchorUpdate → App AnchorTransaction
  update_from_anchor id update = do
    completed ← lift (driver_date_or_none update.completed_at)
    statement env (λ w.
        let rows =
          update_where (has_id id) (set_anchor update completed (env.date_now w.trace)) w.anchors in
        updated_anchor id (find (has_id id) rows) (record w { anchors = rows }))

  -- `listByStellarAccountId`
  unfoldable pub list_by_stellar_account_id : String → ℕ → ℕ → App AnchorTransactionPage
  unfolding newest_first insert_desc
  list_by_stellar_account_id account_id page limit = do
    rows ← statement env (λ w. (
      ok (
          take limit
            (drop ((page - 1) * limit) (newest_first (select (of_account account_id) w.anchors)))),
      w,
    ))
    total ← statement env (λ w. (ok (length (select (of_account account_id) w.anchors)), w))
    pure (record { transactions = rows; total = total })

  -- `findInProgressByStellarAccountId`
  unfoldable pub find_in_progress_by_stellar_account_id :
      String → List AnchorStatus → App (List AnchorTransaction)
  find_in_progress_by_stellar_account_id account_id in_progress_statuses = statement env (λ w. (
    ok (select (λ row. of_account account_id row && has in_progress_statuses row.status) w.anchors),
    w,
  ))
