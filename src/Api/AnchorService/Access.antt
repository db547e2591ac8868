-- ===== src/Api/AnchorService/Access.antt =====
-- Whose anchor transactions a caller sees, and which of them are asked for again (apps/api,
-- anchor.service.ts).
use mix_match_onchain.Base.{
  equal_text, same_text_true, true_ne, String, true, false, Option, none, some, List, [], ◌∷◌, ◌≡◌,
  refl, sym, ap, ◌∙◌, ◌==◌, find,
}
use mix_match_onchain.Exec.{Result, ok, err}
use mix_match_onchain.Exec.Rules.{Ensures, Ensures-bind, Ensures-if, Ensures-throw, Ensures-pure}
use mix_match_onchain.Error.{Error}
use mix_match_onchain.Env.{Env}
use mix_match_onchain.Env.Calls.{Call, Trace, statement}
use mix_match_onchain.Stellar.Sep.Transfer.{has, sep24_in_progress_statuses}
use mix_match_onchain.Api.Rows.{Account, AnchorTransaction, World}
use mix_match_onchain.Api.Store.Rules.{OnStatements, Ensures-stated}
use mix_match_onchain.Api.Accounts
use mix_match_onchain.Api.Anchors
use mix_match_onchain.Api.Anchors.{has_id}
use mix_match_onchain.Api.Access.{SameTables, account_id_is, same_user}
use mix_match_onchain.Api.AnchorService

-- The calls other than the database's, the latest first.
abbrev pub outbound : Trace → List Call
outbound [] = []
outbound (statement ∷ t) = outbound t
outbound (c ∷ t) = c ∷ outbound t

-- The tables are those of `w0`, and nothing but statements left the process since.
pub record Unchanged (w0 w : World) : Type 0 where
  pub tables : SameTables w0 w
  pub asked : outbound w.trace ≡ outbound w0.trace

pub unchanged : (w : World) → Unchanged w w
unchanged w = record {
  tables = record {
    accounts = refl;
    transactions = refl;
    escrows = refl;
    anchors = refl;
    users = refl;
  };
  asked = refl;
}

pub OnStatements-Unchanged : (w0 : World) → OnStatements (Unchanged w0)
OnStatements-Unchanged w0 = record {
  counted = λ w h. record {
    tables = record {
      accounts = h.tables.accounts;
      transactions = h.tables.transactions;
      escrows = h.tables.escrows;
      anchors = h.tables.anchors;
      users = h.tables.users;
    };
    asked = h.asked;
  };
}

-- The row with the id, and its account is the caller's.
pub record IsOwned (w : World) (user_id id : String) (row : AnchorTransaction) : Type 0 where
  pub found : find (has_id id) w.anchors ≡ some row
  pub account : Account
  pub account_found : find (account_id_is row.stellar_account_id) w.accounts ≡ some account
  pub own : account.user_id ≡ user_id

-- A row of the caller's, or an error; nothing is changed or asked.
abbrev pub OwnedOrError : World → String → String → Result Error AnchorTransaction → World → Type 0
OwnedOrError w0 user_id id (ok row) w = Unchanged w0 w × IsOwned w0 user_id id row
OwnedOrError w0 user_id id (err e) w = Unchanged w0 w

progress_ne :
    (r row : AnchorTransaction) (found : Option AnchorTransaction)
    → found ≡ some row
    → found ≡ some r
    → has sep24_in_progress_statuses r.status ≡ true
    → has sep24_in_progress_statuses row.status ≡ false
    → ⊥
progress_ne r row found e f t u = cc

same_row :
    (r row : AnchorTransaction) (found : Option AnchorTransaction)
    → found ≡ some row
    → found ≡ some r
    → r ≡ row
same_row r row found e f = cc

-- An error, with nothing changed and nothing asked.
abbrev pub Denied : World → Result Error AnchorTransaction → World → Type 0
Denied w0 (ok row) w = ⊥
Denied w0 (err e) w = Unchanged w0 w

other_ne :
    (w : World) (user_id id : String) (row : AnchorTransaction) (account : Account)
    (r : AnchorTransaction)
    → find (has_id id) w.anchors ≡ some row
    → find (account_id_is row.stellar_account_id) w.accounts ≡ some account
    → (account.user_id == user_id) ≡ false
    → IsOwned w user_id id r
    → ⊥
other_ne w user_id id row account r found at other h =
    let key = ap (λ a. a.stellar_account_id) (same_row r row _ found h.found) in
    let found_account = ap (λ k. find (account_id_is k) w.accounts) (sym key) ∙ h.account_found in
    let user = same_user account h.account _ at found_account in
    true_ne (account.user_id == user_id) (same_text_true account.user_id user_id (user ∙ h.own))
      other

module _ (env : Env) (w0 : World) (user_id id : String) where
  abbrev Read : Result Error (Option AnchorTransaction) → World → Type 0
  Read (ok r) w = Unchanged w0 w × (find (has_id id) w0.anchors ≡ r)
  Read (err e) w = Unchanged w0 w

  abbrev ReadAccount : AnchorTransaction → Result Error (Option Account) → World → Type 0
  ReadAccount row (ok a) w =
      Unchanged w0 w
      × (find (has_id id) w0.anchors ≡ some row)
      × (find (account_id_is row.stellar_account_id) w0.accounts ≡ a)
  ReadAccount row (err e) w = Unchanged w0 w

  abbrev At : AnchorTransaction → World → Type 0
  At row w = Unchanged w0 w × (find (has_id id) w0.anchors ≡ some row)

  OnStatements-At : (row : AnchorTransaction) → OnStatements (At row)
  OnStatements-At row = record { counted = λ w h. ((OnStatements-Unchanged w0).counted w h.0, h.1) }

  Ensures-owned_by :
      (row : AnchorTransaction) (account : Option Account)
      → Ensures
          (ReadAccount row (ok account))
          (AnchorService.owned_by env user_id row account)
          (OwnedOrError w0 user_id id)
  unfolding AnchorService.get_owned_anchor_transaction
  Ensures-owned_by row none = Ensures-throw _ (λ w h. h.0)
  Ensures-owned_by row (some account) =
      Ensures-if (account.user_id == user_id) _ _
        (λ e. Ensures-pure row (λ w h. (
          h.0,
          record {
            found = h.1;
            account = account;
            account_found = h.2;
            own = equal_text account.user_id user_id e;
          },
        )))
        (λ _. Ensures-throw _ (λ w h. h.0))

  Ensures-with_owner :
      (r : Option AnchorTransaction)
      → Ensures (Read (ok r)) (AnchorService.with_owner env user_id r) (OwnedOrError w0 user_id id)
  unfolding AnchorService.get_owned_anchor_transaction Accounts.find_by_id
  Ensures-with_owner none = Ensures-throw _ (λ w h. h.0)
  Ensures-with_owner (some row) =
      Ensures-bind (ReadAccount row) _ _
        (Ensures-stated (OnStatements-At row) env (ReadAccount row) _
          (λ w h.
            (h.0, h.1, ap (find (account_id_is row.stellar_account_id)) (sym h.0.tables.accounts)))
          (λ e w h. h.0))
        (Ensures-owned_by row) (λ e w h. h)

  pub Ensures-get_owned :
      Ensures
        (Unchanged w0)
        (AnchorService.get_owned_anchor_transaction env user_id id)
        (OwnedOrError w0 user_id id)
  unfolding AnchorService.get_owned_anchor_transaction Anchors.find_by_id
  Ensures-get_owned =
      Ensures-bind Read _ _
        (Ensures-stated (OnStatements-Unchanged w0) env Read _
          (λ w h. (h, ap (find (has_id id)) (sym h.tables.anchors))) (λ e w h. h))
        Ensures-with_owner (λ e w h. h)

  -- What a caller gets without the anchor being asked: the stored row, or an error.
  abbrev pub StoredOrError : AnchorTransaction → Result Error AnchorTransaction → World → Type 0
  StoredOrError row (ok r) w = Unchanged w0 w × (r ≡ row) × IsOwned w0 user_id id r
  StoredOrError row (err e) w = Unchanged w0 w

module _ (env : Env) (w : World) (user_id id : String) (row : AnchorTransaction) where
  -- The status of a row that is no longer in progress, or that is not the caller's: the stored row
  -- comes back, and only to the user of its account; whatever the outcome, no table changes and
  -- nothing but database statements leaves the process, so that the anchor is not asked.
  pub get_status_for_user-settled :
      find (has_id id) w.anchors ≡ some row
      → has sep24_in_progress_statuses row.status ≡ false
      → StoredOrError env w user_id id row
          (AnchorService.get_status_for_user env user_id id w).0
          (AnchorService.get_status_for_user env user_id id w).1
  unfolding AnchorService.get_status_for_user
  get_status_for_user-settled found settled =
      (Ensures-bind {Q = StoredOrError env w user_id id row} (OwnedOrError w user_id id) _ _
          (Ensures-get_owned env w user_id id)
          (λ r.
            Ensures-if (has sep24_in_progress_statuses r.status) _ _
              (λ t. record { at = λ w' h. absurd (progress_ne r row _ found h.1.found t settled) })
              (λ _. Ensures-pure r (λ w' h. (h.0, same_row r row _ found h.1.found, h.1))))
          (λ e w' h. h)).at
        w (unchanged w)

  -- The status of a row of another user's account: an error, no table changes, and nothing but
  -- database statements leaves the process.
  pub get_status_for_user-foreign :
      (account : Account)
      → find (has_id id) w.anchors ≡ some row
      → find (account_id_is row.stellar_account_id) w.accounts ≡ some account
      → (account.user_id == user_id) ≡ false
      → Denied w
          (AnchorService.get_status_for_user env user_id id w).0
          (AnchorService.get_status_for_user env user_id id w).1
  unfolding AnchorService.get_status_for_user
  get_status_for_user-foreign account found at other =
      (Ensures-bind {Q = Denied w} (OwnedOrError w user_id id) _ _
          (Ensures-get_owned env w user_id id)
          (λ r. record {
            at = λ w' h. absurd (other_ne w user_id id row account r found at other h.1);
          })
          (λ e w' h. h)).at
        w (unchanged w)
