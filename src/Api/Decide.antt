-- ===== src/Api/Decide.antt =====
-- The administrator's decisions and the submissions (apps/api, payments.service.ts).
use mix_match_onchain.Base.{
  String, true, false, Option, none, some, List, ◌≡◌, refl, ap, ◌∙◌, find, Bool-cases, inl, inr,
}
use mix_match_onchain.Exec.{Result, ok, err}
use mix_match_onchain.Exec.Rules.{Ensures, Ensures-bind, Ensures-throw}
use mix_match_onchain.Error.{Error}
use mix_match_onchain.Env.{Env}
use mix_match_onchain.Env.Sdk.{Envelope}
use mix_match_onchain.Stellar.Quiet.{submissions}
use mix_match_onchain.Api.Rows.{Transaction, World}
use mix_match_onchain.Api.Transactions
use mix_match_onchain.Api.Transactions.{
  StatusUpdate, has_id, is_pending_signature, updated_transaction,
}
use mix_match_onchain.Api.Approval
use mix_match_onchain.Api.Quiet.{Still, Ensures-Still}

-- A refusal: an error, with the table of transactions and the submissions as before.
abbrev pub Refused :
    List Transaction → List Envelope → {A : Type 0} → Result Error A → World → Type 0
Refused rows es (ok a) w = ⊥
Refused rows es (err e) w = Still rows es w

status_ne :
    (r row : Transaction)
    → some r ≡ some row
    → is_pending_signature r.status ≡ true
    → is_pending_signature row.status ≡ false
    → ⊥
status_ne r row e t f = cc

module _ (env : Env) (rows : List Transaction) (es : List Envelope) (id : String)
    (row : Transaction) (found : find (has_id id) rows ≡ some row)
    (settled : is_pending_signature row.status ≡ false) where
  abbrev Reads : Result Error (Option Transaction) → World → Type 0
  Reads (ok r) w = Still rows es w × (r ≡ some row)
  Reads (err e) w = Still rows es w

  Ensures-awaiting_signature :
      (r : Option Transaction)
      → Ensures (Reads (ok r)) (Approval.awaiting_signature env id r) (Refused rows es)
  unfolding Approval.get_pending_signature_transaction
  Ensures-awaiting_signature none = Ensures-throw _ (λ w h. h.0)
  Ensures-awaiting_signature (some r) = elim (Bool-cases (is_pending_signature r.status)) [
    | inl e ↦ record { at = λ w h. absurd (status_ne r row h.1 e settled) }
    | inr e ↦ rw e (Ensures-throw _ (λ w h. h.0))
  ]

  Ensures-get_pending :
      Ensures (Still rows es) (Approval.get_pending_signature_transaction env id) (Refused rows es)
  unfolding Approval.get_pending_signature_transaction Transactions.find_by_id
  Ensures-get_pending =
      Ensures-bind Reads _ _
        (Ensures-Still env rows es Reads _ (λ w h. (h, ap (find (has_id id)) h.rows_same ∙ found))
          (λ e w h. h))
        Ensures-awaiting_signature (λ e w h. h)

  Ensures-approve :
      Ensures (Still rows es) (Approval.approve_pending_signature env id) (Refused rows es)
  unfolding Approval.approve_pending_signature
  Ensures-approve =
      Ensures-bind (Refused rows es) _ _ Ensures-get_pending (λ a. record { at = λ w h. absurd h })
        (λ e w h. h)

-- The approval of a row that does not await a signature is refused: nothing is submitted, and no
-- row changes.
pub approve_pending_signature-Refused :
    (env : Env) (w : World) (id : String) (row : Transaction)
    → find (has_id id) w.transactions ≡ some row
    → is_pending_signature row.status ≡ false
    → Refused w.transactions
        (submissions w.trace)
        (Approval.approve_pending_signature env id w).0
        (Approval.approve_pending_signature env id w).1
approve_pending_signature-Refused env w id row found settled =
    (Ensures-approve env w.transactions (submissions w.trace) id row found settled).at w
      (record { rows_same = refl; submitted_same = refl })
