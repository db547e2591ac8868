-- ===== src/Api/Once.antt =====
-- A payment that was decided, and every later request (payments.service.ts).
use mix_match_onchain.Base.{
  none_ne, find_here, find_later, String, true, false, some, List, [], ◌∷◌, ◌≡◌, refl, sym, ap, ◌∙◌,
  find, ◌==◌, Bool-cases, inl, inr,
}
use mix_match_onchain.Env.{Env}
use mix_match_onchain.Stellar.Quiet.{submissions}
use mix_match_onchain.Api.Rows.{
  Transaction, TransactionStatus, World, pending, pending_signature, success, failed, needs_review,
}
use mix_match_onchain.Api.Transactions.{has_id, is_pending_signature}
use mix_match_onchain.Api.Approval
use mix_match_onchain.Api.Ledger.Sound.{is_settled, Evolves, IsWellFormed}
use mix_match_onchain.Api.Ledger.History.{Request, serve_all, serve_all-Since}
use mix_match_onchain.Api.Decide.{Refused, approve_pending_signature-Refused}

settled_by :
    (a row : Transaction)
    → some a ≡ some row
    → is_settled row.status ≡ true
    → is_settled a.status ≡ true
settled_by a row e s = cc

-- A settled row is found in every later table.
find-Evolves :
    (id : String) (row : Transaction) (rows later : List Transaction)
    → is_settled row.status ≡ true
    → Evolves rows later
    → find (has_id id) rows ≡ some row
    → find (has_id id) later ≡ some row
find-Evolves id row [] later s h e = absurd (none_ne row e)
find-Evolves id row (a ∷ rows) [] s h e = absurd h
find-Evolves id row (a ∷ rows) (b ∷ later) s h e =
    let same_id : b.id ≡ a.id = ap (λ t. t.0) h.0.same_terms in
    elim (Bool-cases (has_id id a)) [
      | inl t ↦
          let head = sym (find_here (has_id id) a rows t) ∙ e in
          let same = h.0.settled (settled_by a row head s) in
          find_here (has_id id) b later (ap (λ k. k == id) same_id ∙ t) ∙ ap some same ∙ head
      | inr f ↦
          find_later (has_id id) b later (ap (λ k. k == id) same_id ∙ f)
          ∙ find-Evolves id row rows later s h.1 (sym (find_later (has_id id) a rows f) ∙ e)
    ]

not_awaiting : (s : TransactionStatus) → is_settled s ≡ true → is_pending_signature s ≡ false
not_awaiting pending e = refl
not_awaiting pending_signature e = sym e
not_awaiting success e = refl
not_awaiting failed e = refl
not_awaiting needs_review e = refl

-- Once a row is SUCCESS, FAILED or NEEDS_REVIEW, an approval of it after any further requests is
-- refused: it submits nothing and leaves the table of transactions as it is.
pub approve_pending_signature-settled :
    (env : Env) (w : World) (rs : List Request) (id : String) (row : Transaction)
    → IsWellFormed w
    → find (has_id id) w.transactions ≡ some row
    → is_settled row.status ≡ true
    → Refused
        (serve_all env rs w).transactions
        (submissions (serve_all env rs w).trace)
        (Approval.approve_pending_signature env id (serve_all env rs w)).0
        (Approval.approve_pending_signature env id (serve_all env rs w)).1
approve_pending_signature-settled env w rs id row h e s =
    approve_pending_signature-Refused env (serve_all env rs w) id row
      (find-Evolves id row w.transactions (serve_all env rs w).transactions s
        (serve_all-Since env rs w h).1 e)
      (not_awaiting row.status s)
