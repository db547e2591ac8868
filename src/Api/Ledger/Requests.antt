-- ===== src/Api/Ledger/Requests.antt =====
-- The batch of reconciliation, the stream's events, and the caller's own requests.
use mix_match_onchain.Base.{
  ◌-◌, String, Bool, false, ◌&&◌, not, Option, none, some, List, ◌≡◌, refl, ◌==◌, find,
}
use mix_match_onchain.Exec.{Result, ok, err}
use mix_match_onchain.Exec.Rules.{
  Ensures, Ensures-bind, Ensures-if, Ensures-throw, Ensures-pure, Ensures-Keeps, Ensures-from,
}
use mix_match_onchain.Error.{Error}
use mix_match_onchain.Env.{Env}
use mix_match_onchain.Api.Rows.{Account, Transaction, pending, World}
use mix_match_onchain.Api.Transactions.{is_pending}
use mix_match_onchain.Api.Send.{succeeded}
use mix_match_onchain.Api.Reconcile
use mix_match_onchain.Stellar.Streaming.{PaymentStreamEvent}
use mix_match_onchain.Api.Reconcile.{is_matchable}
use mix_match_onchain.Api.Owned
use mix_match_onchain.Api.Ledger.Table.{All-find}
use mix_match_onchain.Api.Ledger.Update.{Since, Open, Updated, Ensures-update_status}
use mix_match_onchain.Api.Ledger.Lookup.{
  Found, FoundAll, Ensures-find_by_id, Ensures-find_stale_pending,
  Ensures-find_pending_by_stellar_account_id,
}
use mix_match_onchain.Api.Ledger.Resolve.{
  matched-IsAllowed, Keeps-find_account-Open, Ensures-reconcile_transaction, Ensures-reconcile_all,
}

module _ (env : Env) (rows : List Transaction) where
  pub Ensures-reconcile_pending_transactions :
      Ensures (Since rows) (Reconcile.reconcile_pending_transactions env) (λ _ w. Since rows w)
  unfolding Reconcile.reconcile_pending_transactions
  Ensures-reconcile_pending_transactions =
      Ensures-bind (λ _ w. Since rows w) _ _ (record { at = λ w h. h })
        (λ now.
          Ensures-bind (FoundAll env rows pending) _ _
            (Ensures-find_stale_pending env rows (now - env.config.reconciliation_stale_ms))
            (λ found. record {
              at = λ w h. (Ensures-reconcile_all env rows found h.2 h.3).at w (h.0, h.1);
            })
            (λ e w h. h))
        (λ e w h. h)

  Ensures-resolve_match :
      (event : PaymentStreamEvent) (p : Transaction → Bool) (found : List Transaction)
      → (match : Option Transaction) → find p found ≡ match
      → Ensures
          (FoundAll env rows pending (ok found))
          (Reconcile.resolve_match env event match)
          (λ _ w. Since rows w)
  unfolding Reconcile.resolve_stream_event
  Ensures-resolve_match event p found none e = Ensures-pure none (λ w h. h.0)
  Ensures-resolve_match event p found (some row) e =
      Ensures-bind (Updated env rows row.id pending) _ _
        (Ensures-from _ (λ w h. record { since = h.0; status = (All-find _ p found h.1 e).0 })
          (Ensures-update_status env rows row.id pending (succeeded event.transaction_hash false)
            (matched-IsAllowed event.transaction_hash)))
        (λ updated. Ensures-pure (some updated) (λ w h. h)) (λ e w h. h.since)

  pub Ensures-resolve_stream_event :
      (account_id : String) (event : PaymentStreamEvent)
      → Ensures
          (Since rows)
          (Reconcile.resolve_stream_event env account_id event)
          (λ _ w. Since rows w)
  unfolding Reconcile.resolve_stream_event
  Ensures-resolve_stream_event account_id event =
      Ensures-if (not (is_matchable event.type)) _ _ (λ _. Ensures-pure none (λ w h. h))
        (λ _.
          Ensures-bind (FoundAll env rows pending) _ _
            (Ensures-find_pending_by_stellar_account_id env rows account_id)
            (λ found. Ensures-resolve_match event (Reconcile.matches_event env event) found _ refl)
            (λ e w h. h))

  -- A row that its owner may see, as the only one with its id.
  abbrev OwnRow : Result Error Transaction → World → Type 0
  OwnRow (ok row) w = Open rows row.id row.status w
  OwnRow (err e) w = Since rows w

  Ensures-owned_by :
      (user_id : String) (row : Transaction) (found : Option Account)
      → Ensures (Open rows row.id row.status) (Owned.owned_by env user_id row found) OwnRow
  unfolding Owned.get_owned_transaction
  Ensures-owned_by user_id row none = Ensures-throw _ (λ w h. h.since)
  Ensures-owned_by user_id row (some account) =
      Ensures-if (account.user_id == user_id) _ _ (λ _. Ensures-pure row (λ w h. h))
        (λ _. Ensures-throw _ (λ w h. h.since))

  Ensures-with_owner :
      (user_id : String) (found : Option Transaction)
      → Ensures (Found env rows (ok found)) (Owned.with_owner env user_id found) OwnRow
  unfolding Owned.get_owned_transaction
  Ensures-with_owner user_id none = Ensures-throw _ (λ w h. h)
  Ensures-with_owner user_id (some row) =
      Ensures-bind (λ _ w. Open rows row.id row.status w) _ _
        (Ensures-Keeps _
          (Keeps-find_account-Open env rows row.id row.status row.stellar_account_id))
        (Ensures-owned_by user_id row) (λ e w h. h.since)

  Ensures-get_owned_transaction :
      (user_id id : String)
      → Ensures (Since rows) (Owned.get_owned_transaction env user_id id) OwnRow
  unfolding Owned.get_owned_transaction
  Ensures-get_owned_transaction user_id id =
      Ensures-bind (Found env rows) _ _ (Ensures-find_by_id env rows id)
        (Ensures-with_owner user_id) (λ e w h. h)

  pub Ensures-reconcile_transaction_by_id :
      (user_id id : String)
      → Ensures
          (Since rows)
          (Owned.reconcile_transaction_by_id env user_id id)
          (λ _ w. Since rows w)
  unfolding Owned.reconcile_transaction_by_id
  Ensures-reconcile_transaction_by_id user_id id =
      Ensures-bind OwnRow _ _ (Ensures-get_owned_transaction user_id id)
        (Ensures-reconcile_transaction env rows) (λ e w h. h)

  pub Ensures-get_transaction_status :
      (user_id id : String)
      → Ensures (Since rows) (Owned.get_transaction_status env user_id id) (λ _ w. Since rows w)
  unfolding Owned.get_transaction_status Reconcile.check
  Ensures-get_transaction_status user_id id =
      Ensures-bind OwnRow _ _ (Ensures-get_owned_transaction user_id id)
        (λ row.
          Ensures-bind (λ _ w. Open rows row.id row.status w) _ _ (record { at = λ w h. h })
            (λ stale.
              Ensures-if (is_pending row.status && stale) _ _
                (λ _. Ensures-reconcile_transaction env rows row)
                (λ _. Ensures-pure row (λ w h. h.since)))
            (λ e w h. h.since))
        (λ e w h. h)
