-- ===== src/Api/Ledger/Settle.antt =====
-- Approval, rejection and reconciliation keep the table well formed and evolving.
use mix_match_onchain.Base.{
  String, false, ◌||◌, not, Option, none, some, List, ◌≡◌, refl, arith, truthy,
}
use mix_match_onchain.Exec.{Result, ok, err}
use mix_match_onchain.Exec.Rules.{
  Ensures, Ensures-bind, Ensures-if, Ensures-throw, Ensures-pure, Ensures-weaken,
}
use mix_match_onchain.Error.{Error}
use mix_match_onchain.Env.{Env}
use mix_match_onchain.Api.Rows.{Transaction, TransactionStatus, pending_signature, World}
use mix_match_onchain.Api.Transactions
use mix_match_onchain.Api.Transactions.{is_pending, is_pending_signature}
use mix_match_onchain.Api.Approval
use mix_match_onchain.Api.Approval.{admin_rejected}
use mix_match_onchain.Api.Ledger.Update.{Since, Open, IsAllowed, Ensures-update_status}
use mix_match_onchain.Api.Ledger.Lookup.{Found, Ensures-find_by_id}
use mix_match_onchain.Api.Ledger.Keep.{co_signed, Ensures-settle, Since-Updated}

admin_rejected-IsAllowed : IsAllowed pending_signature admin_rejected
admin_rejected-IsAllowed = record {
  unsettled = refl;
  settles = refl;
  moves = refl;
  clears = λ _. refl;
  hashed = ground arith;
  explained = λ _. refl;
}

module _ (env : Env) (rows : List Transaction) where
  -- What awaits a signature is open, and has its envelope.
  abbrev Awaiting : Result Error Transaction → World → Type 0
  Awaiting (ok row) w = Open rows row.id pending_signature w
  Awaiting (err e) w = Since rows w

  Found-Since :
      (found : Option Transaction) (w : World) → Found env rows (ok found) w → Since rows w
  Found-Since none w h = h
  Found-Since (some row) w h = h.since

  awaiting_status :
      (row : Transaction)
      → (not (is_pending_signature row.status) || not (truthy row.pending_envelope_xdr)) ≡ false
      → row.status ≡ pending_signature
  awaiting_status row e = ground arith

  pub Open-status :
      (id : String) (s t : TransactionStatus) (w : World)
      → s ≡ t
      → Open rows id s w
      → Open rows id t w
  Open-status id s t w e h = rw (← e) h

  Ensures-awaiting_signature :
      (id : String) (found : Option Transaction)
      → Ensures (Found env rows (ok found)) (Approval.awaiting_signature env id found) Awaiting
  unfolding Approval.get_pending_signature_transaction
  Ensures-awaiting_signature id none = Ensures-throw _ (λ w h. h)
  Ensures-awaiting_signature id (some row) =
      Ensures-if (not (is_pending_signature row.status) || not (truthy row.pending_envelope_xdr)) _
        _ (λ _. Ensures-throw _ (λ w h. h.since))
        (λ e.
          Ensures-pure row
            (λ w h. Open-status row.id row.status pending_signature w (awaiting_status row e) h))

  Ensures-get_pending_signature_transaction :
      (id : String)
      → Ensures (Since rows) (Approval.get_pending_signature_transaction env id) Awaiting
  unfolding Approval.get_pending_signature_transaction
  Ensures-get_pending_signature_transaction id =
      Ensures-bind (Found env rows) _ _ (Ensures-find_by_id env rows id)
        (Ensures-awaiting_signature id) (λ e w h. h)

  pub Ensures-approve_pending_signature :
      (id : String)
      → Ensures (Since rows) (Approval.approve_pending_signature env id) (λ _ w. Since rows w)
  unfolding Approval.approve_pending_signature
  Ensures-approve_pending_signature id =
      Ensures-bind Awaiting _ _ (Ensures-get_pending_signature_transaction id)
        (λ row. Ensures-settle env rows co_signed row.id _) (λ e w h. h)

  -- An update of an open row, whatever it answers.
  pub update-Open :
      (id : String) (s : TransactionStatus) (u : Transactions.StatusUpdate)
      → IsAllowed s u
      → Ensures (Open rows id s) (Transactions.update_status env id u) (λ _ w. Since rows w)
  update-Open id s u allowed =
      Ensures-weaken _ (Ensures-update_status env rows id s u allowed) (Since-Updated env rows id s)

  pub Ensures-reject_pending_signature :
      (id : String)
      → Ensures (Since rows) (Approval.reject_pending_signature env id) (λ _ w. Since rows w)
  unfolding Approval.reject_pending_signature
  Ensures-reject_pending_signature id =
      Ensures-bind Awaiting _ _ (Ensures-get_pending_signature_transaction id)
        (λ row. update-Open row.id pending_signature admin_rejected admin_rejected-IsAllowed)
        (λ e w h. h)
