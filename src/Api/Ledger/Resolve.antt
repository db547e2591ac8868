-- ===== src/Api/Ledger/Resolve.antt =====
-- Reconciliation, by the payments page or by the stream, keeps the table well formed and evolving.
use mix_match_onchain.Base.{
  String, Bool, true, false, not, Option, none, some, List, [], ◌∷◌, ◌≡◌, refl, arith, All,
  is_truthy,
}
use mix_match_onchain.Exec.{◌>>=◌}
use mix_match_onchain.Exec.Rules.{
  Keeps, Ensures, Ensures-bind, Ensures-if, Ensures-pure, Ensures-Keeps, Ensures-from, Ensures-both,
}
use mix_match_onchain.Env.{Env}
use mix_match_onchain.Env.Calls.{Trace}
use mix_match_onchain.Api.Rows.{Account, Transaction, TransactionStatus, pending, World}
use mix_match_onchain.Api.Store.Rules.{Keeps-statement, Ensures-net}
use mix_match_onchain.Api.Accounts
use mix_match_onchain.Api.Transactions.{is_pending}
use mix_match_onchain.Api.Send.{succeeded}
use mix_match_onchain.Api.Reconcile
use mix_match_onchain.Api.Reconcile.{account_missing, escalated}
use mix_match_onchain.Api.Ledger.Table.{Apart}
use mix_match_onchain.Api.Ledger.Update.{Since, Open, IsAllowed, OnTables-Open}
use mix_match_onchain.Api.Ledger.Settle.{update-Open, Open-status}
use mix_match_onchain.Api.Ledger.Others.{Unsettled, Keeps-reconcile_transaction}

account_missing-IsAllowed : IsAllowed pending account_missing
account_missing-IsAllowed = record {
  unsettled = refl;
  settles = refl;
  moves = refl;
  clears = ground arith;
  hashed = ground arith;
  explained = λ _. refl;
}

escalated-IsAllowed : IsAllowed pending escalated
escalated-IsAllowed = record {
  unsettled = refl;
  settles = refl;
  moves = refl;
  clears = ground arith;
  hashed = ground arith;
  explained = λ _. refl;
}

pub matched-IsAllowed : (hash : String) → IsAllowed pending (succeeded hash false)
matched-IsAllowed hash = record {
  unsettled = refl;
  settles = refl;
  moves = refl;
  clears = ground arith;
  hashed = λ _. refl;
  explained = ground arith;
}

module _ (env : Env) (rows : List Transaction) where
  -- `reconcileTransaction`
  Ensures-escalate_or_keep :
      (row : Transaction) (past : Bool)
      → Ensures
          (Open rows row.id pending)
          (Reconcile.escalate_or_keep env row past)
          (λ _ w. Since rows w)
  unfolding Reconcile.reconcile_transaction
  Ensures-escalate_or_keep row true =
      update-Open env rows row.id pending escalated escalated-IsAllowed
  Ensures-escalate_or_keep row false = Ensures-pure row (λ w h. h.since)

  Ensures-escalation :
      (row : Transaction) (test : Trace → Bool)
      → Ensures
          (Open rows row.id pending)
          (Reconcile.check env test >>= Reconcile.escalate_or_keep env row)
          (λ _ w. Since rows w)
  unfolding Reconcile.check
  Ensures-escalation row test =
      Ensures-bind (λ _ w. Open rows row.id pending w) _ _ (record { at = λ w h. h })
        (Ensures-escalate_or_keep row) (λ e w h. h.since)

  Ensures-conclude :
      (row : Transaction) (matched : Option String)
      → Ensures
          (Open rows row.id pending)
          (Reconcile.conclude env row matched)
          (λ _ w. Since rows w)
  unfolding Reconcile.reconcile_transaction
  Ensures-conclude row none = Ensures-escalation row _
  Ensures-conclude row (some hash) =
      Ensures-if (is_truthy hash) _ _
        (λ _. update-Open env rows row.id pending (succeeded hash false) (matched-IsAllowed hash))
        (λ _. Ensures-escalation row _)

  Ensures-with_account :
      (row : Transaction) (found : Option Account)
      → Ensures
          (Open rows row.id pending)
          (Reconcile.with_account env row found)
          (λ _ w. Since rows w)
  unfolding Reconcile.reconcile_transaction
  Ensures-with_account row none =
      update-Open env rows row.id pending account_missing account_missing-IsAllowed
  Ensures-with_account row (some account) =
      Ensures-bind (λ _ w. Open rows row.id pending w) _ _
        (Ensures-net (OnTables-Open env rows row.id pending) _) (Ensures-conclude row)
        (λ e w h. h.since)

  pub Keeps-find_account-Open :
      (id : String) (s : TransactionStatus) (account_id : String)
      → Keeps (Open rows id s) (Accounts.find_by_id env account_id)
  unfolding Accounts.find_by_id
  Keeps-find_account-Open id s account_id =
      Keeps-statement (OnTables-Open env rows id s) env _ (λ w h. h)

  -- Whatever the row says, rows of its id are in the status that it says.
  pub Ensures-reconcile_transaction :
      (row : Transaction)
      → Ensures
          (Open rows row.id row.status)
          (Reconcile.reconcile_transaction env row)
          (λ _ w. Since rows w)
  unfolding Reconcile.reconcile_transaction
  Ensures-reconcile_transaction row =
      Ensures-if (not (is_pending row.status)) _ _ (λ _. Ensures-pure row (λ w h. h.since))
        (λ e.
          Ensures-from _ (λ w h. Open-status env rows row.id row.status pending w (ground arith) h)
            (Ensures-bind (λ _ w. Open rows row.id pending w) _ _
              (Ensures-Keeps _ (Keeps-find_account-Open row.id pending row.stellar_account_id))
              (Ensures-with_account row) (λ e w h. h.since)))

  -- `reconcilePendingTransactions`: the rows that are still to come keep their status meanwhile.
  abbrev Listed : List Transaction → World → Type 0
  Listed found w = Since rows w × Unsettled found w

  Open-Listed :
      (row : Transaction) (found : List Transaction) (w : World)
      → row.status ≡ pending
      → Listed (row ∷ found) w
      → Open rows row.id row.status w × Unsettled found w
  Open-Listed row found w e h = (record { since = h.0; status = rw e h.1.0 }, h.1.1)

  pub Ensures-reconcile_all :
      (found : List Transaction)
      → All (λ row. row.status ≡ pending) found
      → Apart found
      → Ensures (Listed found) (Reconcile.reconcile_all env found) (λ _ w. Since rows w)
  unfolding Reconcile.reconcile_all
  Ensures-reconcile_all [] e d = Ensures-pure [] (λ w h. h.0)
  Ensures-reconcile_all (row ∷ found) e d =
      Ensures-bind (λ _ w. Listed found w) _ _
        (Ensures-from _ (λ w h. Open-Listed row found w e.0 h)
          (Ensures-both _ (Ensures-reconcile_transaction row)
            (Keeps-reconcile_transaction env found row d.0)))
        (λ done.
          Ensures-bind (λ _ w. Since rows w) _ _ (Ensures-reconcile_all found e.1 d.1)
            (λ rest. Ensures-pure _ (λ w h. h)) (λ e w h. h))
        (λ e w h. h.0)
