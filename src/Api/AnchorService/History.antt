-- ===== src/Api/AnchorService/History.antt =====
-- The history of a user's anchor transactions does not fail with an anchor (apps/api,
-- anchor.service.ts, `listHistoryForUser`).
use mix_match_onchain.Base.{
  ℕ, String, ap, sym, Option, none, some, List, [], ◌∷◌, ◌≡◌, refl, find, select, length, ◌==◌,
}
use mix_match_onchain.Exec.{Result, ok, err}
use mix_match_onchain.Exec.Rules.{Ensures, Ensures-bind, Ensures-try, Ensures-pure}
use mix_match_onchain.Error.{Error}
use mix_match_onchain.Env.{Env}
use mix_match_onchain.Env.Calls.{Call, Trace}
use mix_match_onchain.Api.Rows.{Account, AnchorTransaction, World}
use mix_match_onchain.Api.Store.{App, statement}
use mix_match_onchain.Api.Store.Rules.{OnTables}
use mix_match_onchain.Api.Accounts
use mix_match_onchain.Api.Anchors
use mix_match_onchain.Api.Anchors.{AnchorTransactionPage, of_account}
use mix_match_onchain.Api.AnchorService

-- No condition.
abbrev Any : World → Type 0
Any w = Unit

OnTables-Any : OnTables Any
OnTables-Any = record { shift = λ w t h. tt }

-- A value, which may be told apart further, and no error.
abbrev Returns : {A : Type 0} → (A → World → Type 0) → Result Error A → World → Type 0
Returns Q (ok a) w = Q a w
Returns Q (err e) w = ⊥

returned :
    {A : Type 0} (Q : A → World → Type 0) (r : Result Error A) (w : World)
    → Returns Q r w
    → (a : A) × (r ≡ ok a) × Q a w
returned Q (ok a) w h = (a, refl, h)
returned Q (err e) w h = absurd h

abbrev SameAccounts : World → World → Type 0
SameAccounts w0 w = w.accounts ≡ w0.accounts

OnTables-SameAccounts : (w0 : World) → OnTables (SameAccounts w0)
OnTables-SameAccounts w0 = record { shift = λ w t h. h }

abbrev pub account_of : String → World → Option Account
account_of user_id w = find (λ row. row.user_id == user_id) w.accounts

-- The number of all rows of the user's account, or zero without an account.
abbrev pub Counted : Option Account → AnchorTransactionPage → World → Type 0
Counted none page w = page.total ≡ 0
Counted (some account) page w = page.total ≡ length (select (of_account account.id) w.anchors)

module _ (env : Env) (no_fault : (t : Trace) → env.db_fault t ≡ none) where
  Ensures-stated :
      {A : Type 0} {P : World → Type 0} {Q : Result Error A → World → Type 0} (o : OnTables P)
      (m : App A)
      → ((w : World) → P w → Q (m w).0 (m w).1)
      → Ensures P (statement env m) Q
  unfolding statement
  Ensures-stated o m h = record {
    at = λ w p.
        rw (no_fault w.trace) (h (record w { trace = Call.statement ∷ w.trace }) (o.shift w _ p));
  }

  Ensures-try_refresh :
      (row : AnchorTransaction)
      → Ensures Any (AnchorService.try_refresh env row) (Returns (λ _ _. Unit))
  unfolding AnchorService.list_history_for_user
  Ensures-try_refresh row =
      Ensures-try (λ _ _. Unit) _ _ (record { at = λ w h. tt }) (λ e. Ensures-pure tt (λ w h. tt))
        (λ a w h. tt)

  Ensures-refresh_all :
      (rows : List AnchorTransaction)
      → Ensures Any (AnchorService.refresh_all env rows) (Returns (λ _ _. Unit))
  unfolding AnchorService.list_history_for_user
  Ensures-refresh_all [] = Ensures-pure tt (λ w h. tt)
  Ensures-refresh_all (row ∷ rows) =
      Ensures-bind (Returns (λ _ _. Unit)) _ _ (Ensures-try_refresh row)
        (λ _. Ensures-refresh_all rows) (λ e w h. h)

  Ensures-list :
      (account : Account) (page limit : ℕ)
      → Ensures Any
          (Anchors.list_by_stellar_account_id env account.id page limit)
          (Returns (Counted (some account)))
  unfolding Anchors.list_by_stellar_account_id
  Ensures-list account page limit =
      Ensures-bind (Returns (λ _ _. Unit)) _ _ (Ensures-stated OnTables-Any _ (λ w _. tt))
        (λ rows.
          Ensures-bind
            (Returns (λ total w. total ≡ length (select (of_account account.id) w.anchors))) _ _
            (Ensures-stated OnTables-Any _ (λ w _. refl)) (λ total. Ensures-pure _ (λ w h. h))
            (λ e w h. h))
        (λ e w h. h)

  Ensures-history_of :
      (found : Option Account) (page limit : ℕ)
      → Ensures Any (AnchorService.history_of env found page limit) (Returns (Counted found))
  unfolding AnchorService.list_history_for_user Anchors.find_in_progress_by_stellar_account_id
  Ensures-history_of none page limit = Ensures-pure _ (λ w h. refl)
  Ensures-history_of (some account) page limit =
      Ensures-bind (Returns (λ _ _. Unit)) _ _ (Ensures-stated OnTables-Any _ (λ w _. tt))
        (λ rows.
          Ensures-bind (Returns (λ _ _. Unit)) _ _ (Ensures-refresh_all rows)
            (λ _. Ensures-list account page limit) (λ e w h. h))
        (λ e w h. h)

  -- While the database answers, the history is returned, whatever the anchors, Vault and the network
  -- do to the refreshes of the rows in progress; its total counts all rows of the user's account.
  pub list_history_for_user-Returns :
      (w : World) (user_id : String) (page limit : ℕ)
      → (result : AnchorTransactionPage) × ((AnchorService.list_history_for_user env user_id page
            limit w).0
          ≡ ok result)
        × Counted
            (account_of user_id w)
            result
            (AnchorService.list_history_for_user env user_id page limit w).1
  unfolding AnchorService.list_history_for_user Accounts.find_by_user_id
  list_history_for_user-Returns w user_id page limit =
      let (r, w') = AnchorService.list_history_for_user env user_id page limit w in
      returned (Counted (account_of user_id w)) r w' (
        (Ensures-bind {Q = Returns (Counted (account_of user_id w))}
            (Returns (λ found _. found ≡ account_of user_id w)) _ _
            (Ensures-stated (OnTables-SameAccounts w) _
              (λ v h. ap (find (λ row. row.user_id == user_id)) h))
            (λ found. record {
              at = λ v h. rw (sym h) ((Ensures-history_of found page limit).at v tt);
            })
            (λ e v h. h)).at
          w refl)
