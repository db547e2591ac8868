-- ===== src/Api/Ledger/Others.antt =====
-- Reconciling one row leaves the rows of other ids alone.
use mix_match_onchain.Base.{
  ℕ, String, Bool, true, false, not, Option, none, some, List, [], ◌∷◌, ◌≡◌, arith, eq_iff, All,
  find, is_truthy, update_where,
}
use mix_match_onchain.Exec.{◌>>=◌}
use mix_match_onchain.Exec.Rules.{Keeps, Keeps-bind, Keeps-pure, Keeps-if}
use mix_match_onchain.Env.{Env}
use mix_match_onchain.Env.Calls.{Trace}
use mix_match_onchain.Stellar.Net.{Net}
use mix_match_onchain.Api.Rows.{Account, Transaction, pending, World}
use mix_match_onchain.Api.Store.{net}
use mix_match_onchain.Api.Store.Rules.{OnTables, Keeps-net, Keeps-statement}
use mix_match_onchain.Api.Accounts
use mix_match_onchain.Api.Transactions
use mix_match_onchain.Api.Transactions.{
  StatusUpdate, set_status, has_id, is_pending, updated_transaction,
}
use mix_match_onchain.Api.Reconcile
use mix_match_onchain.Api.Ledger.Table.{All-map, All-update_where}
use mix_match_onchain.Api.Ledger.Update.{HasStatus}

-- Every row of the list has its id in the status.
abbrev pub Unsettled : List Transaction → World → Type 0
Unsettled others w = All (λ row. HasStatus row.id pending w) others

OnTables-Unsettled : (others : List Transaction) → OnTables (Unsettled others)
OnTables-Unsettled others = record { shift = λ w t h. h }

two_ids :
    (id : String) (other row : Transaction)
    → has_id id other ≡ false
    → has_id id row ≡ true
    → has_id other.id row ≡ true
    → ⊥
two_ids id other row e h k =
    ground (arith, eq_iff other.id id, eq_iff row.id id, eq_iff row.id other.id)

module _ (id : String) (u : StatusUpdate) (now : ℕ) where
  HasStatus-update_where :
      (other : Transaction) (rows : List Transaction)
      → has_id id other ≡ false
      → All (λ row. has_id other.id row ≡ true → row.status ≡ pending) rows
      → All
          (λ row. has_id other.id row ≡ true → row.status ≡ pending)
          (update_where (has_id id) (set_status u now) rows)
  unfolding set_status
  HasStatus-update_where other rows e h =
      All-update_where _ (has_id id) (set_status u now) rows (
        All-map _ _ rows (λ row k. (k, λ same found. absurd (two_ids id other row e same found))) h)

  Unsettled-update_where :
      (others : List Transaction) (w : World)
      → All (λ other. has_id id other ≡ false) others
      → Unsettled others w
      → Unsettled others
          (record w { transactions = update_where (has_id id) (set_status u now) w.transactions })
  Unsettled-update_where [] w e h = tt
  Unsettled-update_where (other ∷ others) w e h =
      (HasStatus-update_where other w.transactions e.0 h.0, Unsettled-update_where others w e.1 h.1)

module _ (env : Env) (others : List Transaction) where
  updated_others :
      (id : String) (found : Option Transaction) (w : World)
      → Unsettled others w
      → Unsettled others (updated_transaction id found w).1
  updated_others id none w h = h
  updated_others id (some row) w h = h

  Keeps-update :
      (id : String) (u : StatusUpdate)
      → All (λ other. has_id id other ≡ false) others
      → Keeps (Unsettled others) (Transactions.update_status env id u)
  unfolding Transactions.update_status
  Keeps-update id u apart = Keeps-statement (OnTables-Unsettled others) env _ (λ w h.
      let table = update_where (has_id id) (set_status u (env.date_now w.trace)) w.transactions in
      updated_others id (find (has_id id) table) (record w { transactions = table })
        (Unsettled-update_where id u (env.date_now w.trace) others w apart h))

  Keeps-engine : {A : Type 0} (m : Net A) → Keeps (Unsettled others) (net m)
  Keeps-engine m = Keeps-net (OnTables-Unsettled others) m

  module _ (row : Transaction) (apart : All (λ other. has_id row.id other ≡ false) others) where
    Keeps-escalate_or_keep :
        (past : Bool) → Keeps (Unsettled others) (Reconcile.escalate_or_keep env row past)
    unfolding Reconcile.reconcile_transaction
    Keeps-escalate_or_keep true = Keeps-update row.id _ apart
    Keeps-escalate_or_keep false = Keeps-pure row

    Keeps-escalation :
        (test : Trace → Bool)
        → Keeps (Unsettled others) (Reconcile.check env test >>= Reconcile.escalate_or_keep env row)
    unfolding Reconcile.check
    Keeps-escalation test = Keeps-bind _ _ (record { at = λ w h. h }) Keeps-escalate_or_keep

    Keeps-conclude :
        (matched : Option String) → Keeps (Unsettled others) (Reconcile.conclude env row matched)
    unfolding Reconcile.reconcile_transaction
    Keeps-conclude none = Keeps-escalation _
    Keeps-conclude (some hash) =
        Keeps-if (is_truthy hash) _ _ (Keeps-update row.id _ apart) (Keeps-escalation _)

    Keeps-with_account :
        (found : Option Account) → Keeps (Unsettled others) (Reconcile.with_account env row found)
    unfolding Reconcile.reconcile_transaction
    Keeps-with_account none = Keeps-update row.id _ apart
    Keeps-with_account (some account) = Keeps-bind _ _ (Keeps-engine _) Keeps-conclude

    pub Keeps-reconcile_transaction :
        Keeps (Unsettled others) (Reconcile.reconcile_transaction env row)
    unfolding Reconcile.reconcile_transaction Accounts.find_by_id
    Keeps-reconcile_transaction = Keeps-if (not (is_pending row.status)) _ _ (Keeps-pure row) (
        Keeps-bind _ _ (Keeps-statement (OnTables-Unsettled others) env _ (λ w h. h))
          Keeps-with_account)
