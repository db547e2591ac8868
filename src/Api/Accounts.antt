-- ===== src/Api/Accounts.antt =====
-- apps/api/src/modules/payments/stellar-account.repository.ts
use mix_match_onchain.Base.{
  ℕ, String, Bool, true, false, ◌||◌, Option, none, some, [], ◌∷◌, ◌++◌, ◌==◌, find, any,
  update_where, concat, if◌then◌else◌,
}
use mix_match_onchain.Exec.{Result, ok, err}
use mix_match_onchain.Error.{Error, plain}
use mix_match_onchain.Env.{Env}
use mix_match_onchain.Env.Sdk.{StellarNetwork}
use mix_match_onchain.Api.Rows.{Account, World}
use mix_match_onchain.Api.Store.{App, statement, unique_violation}

-- Who holds a new account's key: Vault under a name, or the database, encrypted.
pub data Custody : Type 0 where
  signing_key : String → Custody
  encrypted_secret : String → Custody

pub record NewAccount : Type 0 where
  pub user_id : String
  pub public_key : String
  pub network : StellarNetwork
  pub custody : Custody

abbrev encrypted_part : Custody → Option String
encrypted_part (signing_key name) = none
encrypted_part (encrypted_secret s) = some s

abbrev signing_part : Custody → Option String
signing_part (signing_key name) = some name
signing_part (encrypted_secret s) = none

abbrev pub account_row : NewAccount → String → ℕ → Account
account_row input id now = record {
  id = id;
  user_id = input.user_id;
  public_key = input.public_key;
  encrypted_secret_key = encrypted_part input.custody;
  signing_key_id = signing_part input.custody;
  network = input.network;
  multisig_configured = false;
  created_at = now;
  updated_at = now;
}

-- The row's id, user and public key are each unique in the table.
abbrev pub account_clash : Account → Account → Bool
account_clash row other =
    (other.id == row.id) || (other.user_id == row.user_id) || (other.public_key == row.public_key)

abbrev pub updated_account : String → Option Account → World → Result Error Account × World
updated_account id none w = (err (plain (concat "Stellar account not found: " id)), w)
updated_account id (some row) w = (ok row, w)

module _ (env : Env) where
  -- `findByUserId`
  unfoldable pub find_by_user_id : String → App (Option Account)
  find_by_user_id user_id =
      statement env (λ w. (ok (find (λ row. row.user_id == user_id) w.accounts), w))

  -- `findById`
  unfoldable pub find_by_id : String → App (Option Account)
  find_by_id id = statement env (λ w. (ok (find (λ row. row.id == id) w.accounts), w))

  insert : Account → App Account
  insert row w =
      if any (account_clash row) w.accounts
      then (err unique_violation, w)
      else (ok row, record w { accounts = w.accounts ++ (row ∷ []) })

  -- `create`
  unfoldable pub create : NewAccount → App Account
  unfolding insert
  create input =
      statement env (λ w. insert (account_row input (env.db_uuid w.trace) (env.db_now w.trace)) w)

  -- `markMultisigConfigured`
  unfoldable pub mark_multisig_configured : String → App Account
  mark_multisig_configured id = statement env (λ w.
      let rows =
        update_where (λ row. row.id == id)
          (λ row. record row { multisig_configured = true; updated_at = env.date_now w.trace })
          w.accounts in
      updated_account id (find (λ row. row.id == id) rows) (record w { accounts = rows }))
