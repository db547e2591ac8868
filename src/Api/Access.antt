-- ===== src/Api/Access.antt =====
-- Whose transactions a caller sees (apps/api, payments.service.ts, `getOwnedTransaction`).
use mix_match_onchain.Base.{
  equal_text, same_text_true, true_ne, String, Bool, false, Option, none, some, ◌≡◌, refl, sym, ap,
  ◌∙◌, ◌==◌, find,
}
use mix_match_onchain.Exec.{Result, ok, err}
use mix_match_onchain.Exec.Rules.{Ensures, Ensures-bind, Ensures-if, Ensures-throw, Ensures-pure}
use mix_match_onchain.Error.{Error}
use mix_match_onchain.Env.{Env}
use mix_match_onchain.Api.Rows.{Account, Transaction, World}
use mix_match_onchain.Api.Store.Rules.{OnTables, Ensures-statement}
use mix_match_onchain.Api.Accounts
use mix_match_onchain.Api.Transactions
use mix_match_onchain.Api.Transactions.{has_id}
use mix_match_onchain.Api.Owned
use mix_match_onchain.Api.Reconcile

-- The five tables of `w` are those of `w0`.
pub record SameTables (w0 w : World) : Type 0 where
  pub accounts : w.accounts ≡ w0.accounts
  pub transactions : w.transactions ≡ w0.transactions
  pub escrows : w.escrows ≡ w0.escrows
  pub anchors : w.anchors ≡ w0.anchors
  pub users : w.users ≡ w0.users

abbrev pub account_id_is : String → Account → Bool
account_id_is id row = row.id == id

-- The row with the id, and its account is the caller's.
pub record IsOwned (w : World) (user_id id : String) (row : Transaction) : Type 0 where
  pub found : find (has_id id) w.transactions ≡ some row
  pub account : Account
  pub account_found : find (account_id_is row.stellar_account_id) w.accounts ≡ some account
  pub own : account.user_id ≡ user_id

-- A row of the caller's, or an error; the tables stay.
abbrev pub OwnedOrError : World → String → String → Result Error Transaction → World → Type 0
OwnedOrError w0 user_id id (ok row) w = SameTables w0 w × IsOwned w0 user_id id row
OwnedOrError w0 user_id id (err e) w = SameTables w0 w

pub OnTables-SameTables : (w0 : World) → OnTables (SameTables w0)
OnTables-SameTables w0 = record {
  shift = λ w t h. record {
    accounts = h.accounts;
    transactions = h.transactions;
    escrows = h.escrows;
    anchors = h.anchors;
    users = h.users;
  };
}

module _ (env : Env) (w0 : World) (user_id id : String) where
  abbrev Read : Result Error (Option Transaction) → World → Type 0
  Read (ok r) w = SameTables w0 w × (find (has_id id) w0.transactions ≡ r)
  Read (err e) w = SameTables w0 w

  abbrev ReadAccount : Transaction → Result Error (Option Account) → World → Type 0
  ReadAccount row (ok a) w =
      SameTables w0 w
      × (find (has_id id) w0.transactions ≡ some row)
      × (find (account_id_is row.stellar_account_id) w0.accounts ≡ a)
  ReadAccount row (err e) w = SameTables w0 w

  abbrev At : Transaction → World → Type 0
  At row w = SameTables w0 w × (find (has_id id) w0.transactions ≡ some row)

  OnTables-At : (row : Transaction) → OnTables (At row)
  OnTables-At row = record { shift = λ w t h. ((OnTables-SameTables w0).shift w t h.0, h.1) }

  Ensures-owned_by :
      (row : Transaction) (account : Option Account)
      → Ensures
          (ReadAccount row (ok account))
          (Owned.owned_by env user_id row account)
          (OwnedOrError w0 user_id id)
  unfolding Owned.get_owned_transaction
  Ensures-owned_by row none = Ensures-throw _ (λ w h. h.0)
  Ensures-owned_by row (some account) =
      Ensures-if (account.user_id == user_id) _ _
        (λ e. Ensures-pure row (λ w h. (
          h.0,
          record {
            found = h.1;
            account = account;
            account_found = h.2;
            own = equal_text account.user_id user_id e;
          },
        )))
        (λ _. Ensures-throw _ (λ w h. h.0))

  Ensures-find_account :
      (row : Transaction)
      → Ensures (At row) (Accounts.find_by_id env row.stellar_account_id) (ReadAccount row)
  unfolding Accounts.find_by_id
  Ensures-find_account row =
      Ensures-statement (OnTables-At row) env (ReadAccount row) _
        (λ w h. (h.0, h.1, ap (find (account_id_is row.stellar_account_id)) (sym h.0.accounts)))
        (λ e w h. h.0)

  Ensures-with_owner :
      (r : Option Transaction)
      → Ensures (Read (ok r)) (Owned.with_owner env user_id r) (OwnedOrError w0 user_id id)
  unfolding Owned.get_owned_transaction
  Ensures-with_owner none = Ensures-throw _ (λ w h. h.0)
  Ensures-with_owner (some row) =
      Ensures-bind (ReadAccount row) _ _ (Ensures-find_account row) (Ensures-owned_by row)
        (λ e w h. h)

  Ensures-get_owned :
      Ensures
        (SameTables w0)
        (Owned.get_owned_transaction env user_id id)
        (OwnedOrError w0 user_id id)
  unfolding Owned.get_owned_transaction Transactions.find_by_id
  Ensures-get_owned =
      Ensures-bind Read _ _
        (Ensures-statement (OnTables-SameTables w0) env Read _
          (λ w h. (h, ap (find (has_id id)) (sym h.transactions))) (λ e w h. h))
        Ensures-with_owner (λ e w h. h)

-- `getOwnedTransaction` changes no table, and a row that it returns is the row with the id, of an
-- account whose user is the caller.
pub get_owned_transaction-OwnedOrError :
    (env : Env) (w : World) (user_id id : String)
    → OwnedOrError w user_id id
        (Owned.get_owned_transaction env user_id id w).0
        (Owned.get_owned_transaction env user_id id w).1
get_owned_transaction-OwnedOrError env w user_id id =
    (Ensures-get_owned env w user_id id).at w (record {
      accounts = refl;
      transactions = refl;
      escrows = refl;
      anchors = refl;
      users = refl;
    })

-- An error, with the tables as before.
abbrev pub Denied : World → Result Error Transaction → World → Type 0
Denied w0 (ok row) w = ⊥
Denied w0 (err e) w = SameTables w0 w

same_account :
    (r row : Transaction) (rows : Option Transaction)
    → rows ≡ some row
    → rows ≡ some r
    → r.stellar_account_id ≡ row.stellar_account_id
same_account r row rows e f = cc

pub same_user :
    (a b : Account) (found : Option Account)
    → found ≡ some a
    → found ≡ some b
    → a.user_id ≡ b.user_id
same_user a b found e f = cc

other_ne :
    (w : World) (user_id id : String) (row : Transaction) (account : Account) (r : Transaction)
    → find (has_id id) w.transactions ≡ some row
    → find (account_id_is row.stellar_account_id) w.accounts ≡ some account
    → (account.user_id == user_id) ≡ false
    → IsOwned w user_id id r
    → ⊥
other_ne w user_id id row account r found at other h =
    let key = same_account r row (find (has_id id) w.transactions) found h.found in
    let found_account = ap (λ k. find (account_id_is k) w.accounts) (sym key) ∙ h.account_found in
    let user =
      same_user account h.account (find (account_id_is row.stellar_account_id) w.accounts) at
        found_account in
    true_ne (account.user_id == user_id) (same_text_true account.user_id user_id (user ∙ h.own))
      other

-- A transaction of another user's account: the request to reconcile it throws and changes no table.
pub reconcile_transaction_by_id-foreign :
    (env : Env) (w : World) (user_id id : String) (row : Transaction) (account : Account)
    → find (has_id id) w.transactions ≡ some row
    → find (account_id_is row.stellar_account_id) w.accounts ≡ some account
    → (account.user_id == user_id) ≡ false
    → Denied w
        (Owned.reconcile_transaction_by_id env user_id id w).0
        (Owned.reconcile_transaction_by_id env user_id id w).1
unfolding Owned.reconcile_transaction_by_id
reconcile_transaction_by_id-foreign env w user_id id row account found at other =
    (Ensures-bind {Q = Denied w} (OwnedOrError w user_id id) _ (Reconcile.reconcile_transaction env)
        (Ensures-get_owned env w user_id id)
        (λ r. record {
          at = λ w' h. absurd (other_ne w user_id id row account r found at other h.1);
        })
        (λ e w' h. h)).at
      w
      (record {
        accounts = refl;
        transactions = refl;
        escrows = refl;
        anchors = refl;
        users = refl;
      })
