-- ===== src/Api/Settled.antt =====
-- How a submission ends (payments.service.ts: the `try` of `sendPayment` and of
-- `approvePendingSignature`).
use mix_match_onchain.Base.{
  none_ne, same_some, find_here, find_later, ℕ, String, Bool, true, false, none, some, List, [],
  ◌∷◌, ◌≡◌, refl, sym, ap, ◌∙◌, find, update_where, Bool-cases, inl, inr, if◌then◌else◌,
}
use mix_match_onchain.Exec.{Result, ok, err}
use mix_match_onchain.Error.{Error, payment_failed}
use mix_match_onchain.Env.{Env}
use mix_match_onchain.Env.Sdk.{SubmitResult}
use mix_match_onchain.Env.Calls.{Call}
use mix_match_onchain.Stellar.Errors.{classify, kind_name}
use mix_match_onchain.Api.Rows.{Transaction, World, success, failed}
use mix_match_onchain.Api.Store.{statement}
use mix_match_onchain.Api.Transactions
use mix_match_onchain.Api.Transactions.{StatusUpdate, has_id, set_status, updated_transaction}
use mix_match_onchain.Api.Send
use mix_match_onchain.Api.Send.{succeeded, failed_by}

-- The update that a submission calls for.
abbrev update_for : Result Error SubmitResult → Bool → StatusUpdate
update_for (ok result) clear = succeeded result.hash clear
update_for (err e) clear = failed_by e clear

-- What the caller is told: the updated row, or the classified error.
abbrev answer_for : Result Error SubmitResult → Transaction → Result Error Transaction
answer_for (ok result) row = ok row
answer_for (err e) row = err (payment_failed (classify e).kind (classify e).message)

has_id-set_status :
    (id : String) (u : StatusUpdate) (now : ℕ) (a : Transaction)
    → has_id id (set_status u now a) ≡ has_id id a
unfolding set_status
has_id-set_status id u now a = refl

update_head :
    (id : String) (f : Transaction → Transaction) (a : Transaction) (rows : List Transaction)
    → has_id id a ≡ true
    → update_where (has_id id) f (a ∷ rows) ≡ f a ∷ update_where (has_id id) f rows
update_head id f a rows t = rw t refl

update_tail :
    (id : String) (f : Transaction → Transaction) (a : Transaction) (rows : List Transaction)
    → has_id id a ≡ false
    → update_where (has_id id) f (a ∷ rows) ≡ a ∷ update_where (has_id id) f rows
update_tail id f a rows e = rw e refl

pub find-updated :
    (id : String) (u : StatusUpdate) (now : ℕ) (rows : List Transaction) (row : Transaction)
    → find (has_id id) rows ≡ some row
    → find (has_id id) (update_where (has_id id) (set_status u now) rows)
      ≡ some (set_status u now row)
find-updated id u now [] row e = absurd (none_ne row e)
find-updated id u now (a ∷ rows) row e = elim (Bool-cases (has_id id a)) [
  | inl t ↦
      ap (find (has_id id)) (update_head id (set_status u now) a rows t)
      ∙ find_here (has_id id) (set_status u now a)
          (update_where (has_id id) (set_status u now) rows) (has_id-set_status id u now a ∙ t)
      ∙ ap (λ r. some (set_status u now r))
          (same_some a row (sym (find_here (has_id id) a rows t) ∙ e))
  | inr f ↦
      ap (find (has_id id)) (update_tail id (set_status u now) a rows f)
      ∙ find_later (has_id id) a (update_where (has_id id) (set_status u now) rows) f
      ∙ find-updated id u now rows row (sym (find_later (has_id id) a rows f) ∙ e)
]

module _ (env : Env) (id : String) where
  -- The state after the update of a statement that does not fail.
  abbrev pub updated : StatusUpdate → World → World
  updated u w = record w {
    transactions =
        update_where (has_id id) (set_status u (env.date_now (Call.statement ∷ w.trace)))
          w.transactions;
    trace = Call.statement ∷ w.trace;
  }

  pub update_status-updated :
      (u : StatusUpdate) (w : World) (row : Transaction)
      → env.db_fault w.trace ≡ none
      → find (has_id id) w.transactions ≡ some row
      → Transactions.update_status env id u w
        ≡ (ok (set_status u (env.date_now (Call.statement ∷ w.trace)) row), updated u w)
  unfolding Transactions.update_status statement
  update_status-updated u w row free found = rw free (
      rw (find-updated id u (env.date_now (Call.statement ∷ w.trace)) w.transactions row found)
        refl)

-- The row keeps what a payment is about, and its envelope unless the update clears it.
pub record IsSame (clear : Bool) (row after : Transaction) : Type 0 where
  pub id : after.id ≡ row.id
  pub idempotency_key : after.idempotency_key ≡ row.idempotency_key
  pub stellar_account_id : after.stellar_account_id ≡ row.stellar_account_id
  pub destination_public_key : after.destination_public_key ≡ row.destination_public_key
  pub amount : after.amount ≡ row.amount
  pub envelope : after.pending_envelope_xdr ≡ (if clear then none else row.pending_envelope_xdr)

-- The row is SUCCESS with the hash; or it is FAILED with the kind and the message that the error is
-- classified as.
pub record IsSuccess (hash : String) (after : Transaction) : Type 0 where
  pub status : after.status ≡ success
  pub stellar_tx_hash : after.stellar_tx_hash ≡ some hash

pub record IsFailure (error : Error) (after : Transaction) : Type 0 where
  pub status : after.status ≡ failed
  pub failure_code : after.failure_code ≡ some (kind_name (classify error).kind)
  pub failure_reason : after.failure_reason ≡ some (classify error).message

-- The end of a submission of `row` that came to `r`: what the caller gets, and the row that the
-- table has then.
abbrev pub Ends :
    Env
    → String
    → Bool
    → Transaction
    → Result Error SubmitResult
    → Result Error Transaction × World
    → Type 0
Ends env id clear row (ok result) outcome =
    (after : Transaction) × (find (has_id id) outcome.1.transactions ≡ some after)
    × IsSame clear row after
    × IsSuccess result.hash after
    × (outcome.0 ≡ ok after)
Ends env id clear row (err e) outcome =
    (after : Transaction) × (find (has_id id) outcome.1.transactions ≡ some after)
    × IsSame clear row after
    × IsFailure e after
    × (outcome.0 ≡ err (payment_failed (classify e).kind (classify e).message))

pub set_status-IsSame :
    (u : StatusUpdate) (now : ℕ) (row : Transaction)
    → IsSame u.clear_pending_envelope row (set_status u now row)
unfolding set_status
set_status-IsSame u now row = record {
  id = refl;
  idempotency_key = refl;
  stellar_account_id = refl;
  destination_public_key = refl;
  amount = refl;
  envelope = refl;
}
