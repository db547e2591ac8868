-- ===== src/Api/Quiet.antt =====
-- What of the API submits nothing and leaves the table of transactions as it is.
use mix_match_onchain.Base.{
  String, ◌&&◌, Option, none, some, List, ◌≡◌, refl, any, truthy, is_truthy, Bool-cases, inl, inr,
}
use mix_match_onchain.Exec.{Result, err}
use mix_match_onchain.Exec.Rules.{
  Keeps, Keeps-bind, Keeps-throw, Keeps-pure, Keeps-lift, Keeps-if, Ensures,
}
use mix_match_onchain.Error.{Error}
use mix_match_onchain.Env.{Env}
use mix_match_onchain.Env.Calls.{Trace}
use mix_match_onchain.Api.Store.Rules.{OnStatements, Keeps-stated, Ensures-stated}
use mix_match_onchain.Api.Rows.{Account, Transaction, World}
use mix_match_onchain.Api.Store.{App, net}
use mix_match_onchain.Api.Accounts
use mix_match_onchain.Env.Sdk.{StellarAssetRef, Envelope, StellarNetwork, testnet}
use mix_match_onchain.Stellar.Net.{Net}
use mix_match_onchain.Stellar.PathPayment.{PathQuote, PathPaymentMode, strict_send, strict_receive}
use mix_match_onchain.Stellar.Quiet.{
  submissions, Submitted, IsQuiet, IsQuiet-Submitted, Keeps-ask, Keeps-find_strict_send_path,
  Keeps-find_strict_receive_path, Keeps-fund_testnet_account,
}
use mix_match_onchain.Api.Store.{statement}
use mix_match_onchain.Api.Accounts.{NewAccount, account_row, account_clash}
use mix_match_onchain.Api.Wallets
use mix_match_onchain.Api.Custody
use mix_match_onchain.Api.Paths
use mix_match_onchain.Api.Paths.{SendPaymentInput, asset_ref}
use mix_match_onchain.Api.Send

module _ {P : Trace → Type 0} (q : IsQuiet P) (env : Env) where
  Keeps-vault_wallet :
      (network : StellarNetwork) (name : String) → Keeps P (Wallets.vault_wallet env network name)
  unfolding Wallets.wallet_for_account
  Keeps-vault_wallet network name =
      Keeps-bind _ _ (Keeps-ask q env _ _ refl) (λ bytes. Keeps-pure _)

  Keeps-keypair_wallet :
      (network : StellarNetwork) (secret : String)
      → Keeps P (Wallets.keypair_wallet env network secret)
  unfolding Wallets.wallet_for_account
  Keeps-keypair_wallet network secret = Keeps-bind _ _ (Keeps-lift _) (λ key. Keeps-pure _)

  Keeps-legacy_wallet :
      (account : Account) (encrypted : Option String)
      → Keeps P (Wallets.legacy_wallet env account encrypted)
  unfolding Wallets.wallet_for_account
  Keeps-legacy_wallet account none = Keeps-throw _
  Keeps-legacy_wallet account (some encrypted) =
      Keeps-if (is_truthy encrypted) _ _
        (Keeps-bind _ _ (Keeps-lift _) (Keeps-keypair_wallet account.network)) (Keeps-throw _)

  Keeps-wallet_by_key :
      (account : Account) (key : Option String) → Keeps P (Wallets.wallet_by_key env account key)
  unfolding Wallets.wallet_for_account
  Keeps-wallet_by_key account none = Keeps-legacy_wallet account account.encrypted_secret_key
  Keeps-wallet_by_key account (some name) =
      Keeps-if (is_truthy name) _ _ (Keeps-vault_wallet account.network name)
        (Keeps-legacy_wallet account account.encrypted_secret_key)

  pub Keeps-wallet_for_account :
      (account : Account) → Keeps P (Wallets.wallet_for_account env account)
  unfolding Wallets.wallet_for_account
  Keeps-wallet_for_account account = Keeps-wallet_by_key account account.signing_key_id

  Keeps-get_or_throw :
      (name : String) (value : Option String) → Keeps P (Wallets.get_or_throw env name value)
  Keeps-get_or_throw name none = Keeps-throw _
  Keeps-get_or_throw name (some value) = Keeps-pure value

  pub Keeps-admin_wallet : Keeps P (Wallets.admin_wallet env)
  unfolding Wallets.admin_wallet
  Keeps-admin_wallet =
      Keeps-if (truthy env.config.vault_addr) _ _
        (Keeps-bind _ _ (Keeps-get_or_throw "adminSigningKeyName" env.config.admin_signing_key_name)
          (Keeps-vault_wallet env.config.stellar_network))
        (Keeps-bind _ _ (Keeps-get_or_throw "adminSigningSecret" env.config.admin_signing_secret)
          (Keeps-keypair_wallet env.config.stellar_network))

  Keeps-create_account_signer : Keeps P (Wallets.create_account_signer env)
  unfolding Wallets.create_account_signer
  Keeps-create_account_signer =
      Keeps-if (truthy env.config.vault_addr) _ _
        (Keeps-bind _ _ (Keeps-ask q env _ _ refl) (λ uuid.
          Keeps-bind _ _ (Keeps-ask q env _ _ refl)
            (λ _. Keeps-bind _ _ (Keeps-ask q env _ _ refl) (λ bytes. Keeps-pure _))))
        (Keeps-bind _ _ (Keeps-ask q env _ _ refl)
          (λ pair. Keeps-bind _ _ (Keeps-ask q env _ _ refl) (λ s. Keeps-pure _)))

  Keeps-find_path :
      (mode : PathPaymentMode) (source dest : Option StellarAssetRef) (amount : String)
      → Keeps P (Paths.find_path env mode source dest amount)
  unfolding Paths.resolve_path_quote
  Keeps-find_path strict_send source dest amount =
      Keeps-find_strict_send_path q env source dest amount
  Keeps-find_path strict_receive source dest amount =
      Keeps-find_strict_receive_path q env source dest amount

-- The table of transactions and the submissions are as they were.
pub record Still (rows : List Transaction) (es : List Envelope) (w : World) : Type 0 where
  pub rows_same : w.transactions ≡ rows
  pub submitted_same : submissions w.trace ≡ es

module _ (env : Env) (rows : List Transaction) (es : List Envelope) where
  pub Keeps-quiet :
      {A : Type 0} (m : Net A) → Keeps (Submitted es) m → Keeps (Still rows es) (net m)
  unfolding net
  Keeps-quiet m k = record {
    at = λ w h. record { rows_same = h.rows_same; submitted_same = k.at w.trace h.submitted_same };
  }

  OnStatements-Still : OnStatements (Still rows es)
  OnStatements-Still = record {
    counted = λ w h. record { rows_same = h.rows_same; submitted_same = h.submitted_same };
  }

  pub Keeps-Still :
      {A : Type 0} (m : App A)
      → ((w : World) → Still rows es w → Still rows es (m w).1)
      → Keeps (Still rows es) (statement env m)
  Keeps-Still = Keeps-stated OnStatements-Still env

  pub Ensures-Still :
      {A : Type 0} (Q : Result Error A → World → Type 0) (m : App A)
      → ((w : World) → Still rows es w → Q (m w).0 (m w).1)
      → ((e : Error) (w : World) → Still rows es w → Q (err e) w)
      → Ensures (Still rows es) (statement env m) Q
  Ensures-Still = Ensures-stated OnStatements-Still env

  Still-accounts :
      (w : World) (accounts : List Account)
      → Still rows es w
      → Still rows es (record w { accounts = accounts })
  Still-accounts w accounts h = record {
    rows_same = h.rows_same;
    submitted_same = h.submitted_same;
  }

  Keeps-create_account : (input : NewAccount) → Keeps (Still rows es) (Accounts.create env input)
  unfolding Accounts.create
  Keeps-create_account input = Keeps-Still _ (λ w h.
      let row = account_row input (env.db_uuid w.trace) (env.db_now w.trace) in
      elim (Bool-cases (any (account_clash row) w.accounts)) [
        | inl e ↦ rw e h
        | inr e ↦ rw e (Still-accounts w _ h)
      ])

  Keeps-fund_if_testnet :
      (network : StellarNetwork) (key : String)
      → Keeps (Still rows es) (Custody.fund_if_testnet env network key)
  unfolding Custody.get_or_create_stellar_account
  Keeps-fund_if_testnet testnet key =
      Keeps-quiet _ (Keeps-fund_testnet_account (IsQuiet-Submitted es) env testnet key)
  Keeps-fund_if_testnet _ key = Keeps-pure _

  Keeps-existing_or_new :
      (user_id : String) (found : Option Account)
      → Keeps (Still rows es) (Custody.existing_or_new env user_id found)
  unfolding Custody.get_or_create_stellar_account
  Keeps-existing_or_new user_id (some account) = Keeps-pure account
  Keeps-existing_or_new user_id none =
      Keeps-bind _ _ (Keeps-quiet _ (Keeps-create_account_signer (IsQuiet-Submitted es) env))
        (λ signer.
          Keeps-bind _ _ (Keeps-fund_if_testnet env.config.stellar_network signer.public_key)
            (λ _. Keeps-create_account _))

  pub Keeps-get_or_create_stellar_account :
      (user_id : String) → Keeps (Still rows es) (Custody.get_or_create_stellar_account env user_id)
  unfolding Custody.get_or_create_stellar_account Accounts.find_by_user_id
  Keeps-get_or_create_stellar_account user_id =
      Keeps-bind _ _ (Keeps-Still _ (λ w h. h)) (Keeps-existing_or_new user_id)

  Keeps-quote_or_fail :
      (quote : Option PathQuote) → Keeps (Still rows es) (Paths.quote_or_fail env quote)
  unfolding Paths.resolve_path_quote
  Keeps-quote_or_fail none = Keeps-throw _
  Keeps-quote_or_fail (some quote) = Keeps-pure quote

  pub Keeps-quote_if_path :
      (input : SendPaymentInput) → Keeps (Still rows es) (Send.quote_if_path env input)
  unfolding Send.send_payment Paths.resolve_path_quote
  Keeps-quote_if_path input =
      Keeps-if (truthy input.receive_asset_code && truthy input.receive_asset_issuer) _ _
        (Keeps-bind _ _
          (Keeps-bind _ _ (Keeps-quiet _ (Keeps-find_path (IsQuiet-Submitted es) env _ _ _ _))
            Keeps-quote_or_fail)
          (λ quote. Keeps-pure (some quote)))
        (Keeps-pure none)
