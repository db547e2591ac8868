-- ===== src/Api/Ledger/Operations.antt =====
-- Each operation of the payments service keeps the table of transactions well formed and evolving.
use mix_match_onchain.Base.{
  String, true, ◌&&◌, Option, none, some, List, ◌==◌, update_where, any, find, truthy, Bool-cases,
  inl, inr,
}
use mix_match_onchain.Exec.{ok, pure, ◌>>=◌}
use mix_match_onchain.Exec.Rules.{
  Keeps, Keeps-bind, Keeps-throw, Keeps-pure, Keeps-if, Ensures, Ensures-bind, Ensures-if,
  Ensures-pure, Ensures-Keeps,
}
use mix_match_onchain.Env.{Env}
use mix_match_onchain.Env.Sdk.{StellarNetwork, testnet}
use mix_match_onchain.Stellar.Net.{Net}
use mix_match_onchain.Stellar.PathPayment.{PathQuote}
use mix_match_onchain.Api.Rows.{Account, Transaction, pending, World}
use mix_match_onchain.Api.Store.{net}
use mix_match_onchain.Api.Store.Rules.{Keeps-net, Keeps-statement, Ensures-net}
use mix_match_onchain.Api.Accounts
use mix_match_onchain.Api.Accounts.{NewAccount, account_clash, account_row, updated_account}
use mix_match_onchain.Api.Transactions.{NewTransaction}
use mix_match_onchain.Api.Custody
use mix_match_onchain.Api.Paths
use mix_match_onchain.Api.Paths.{SendPaymentInput}
use mix_match_onchain.Api.Send
use mix_match_onchain.Api.Send.{Opening, fresh, repeated, payment_row, high_value_row}
use mix_match_onchain.Api.Ledger.Update.{Since, Open, OnTables-Since, OnTables-Open}
use mix_match_onchain.Api.Ledger.Lookup.{Keeps-find_by_idempotency_key}
use mix_match_onchain.Api.Ledger.Keep.{ordinary, Ensures-settle, Opened, Ensures-open_transaction}

module _ (env : Env) (rows : List Transaction) where
  Since-accounts :
      (w : World) (accounts : List Account)
      → Since rows w
      → Since rows (record w { accounts = accounts })
  Since-accounts w accounts h = record {
    well_formed = record { distinct = h.well_formed.distinct; sound = h.well_formed.sound };
    evolves = h.evolves;
  }

  pub Keeps-find_account : (id : String) → Keeps (Since rows) (Accounts.find_by_id env id)
  unfolding Accounts.find_by_id
  Keeps-find_account id = Keeps-statement (OnTables-Since rows) env _ (λ w h. h)

  Keeps-find_by_user_id :
      (user_id : String) → Keeps (Since rows) (Accounts.find_by_user_id env user_id)
  unfolding Accounts.find_by_user_id
  Keeps-find_by_user_id user_id = Keeps-statement (OnTables-Since rows) env _ (λ w h. h)

  Keeps-create_account : (input : NewAccount) → Keeps (Since rows) (Accounts.create env input)
  unfolding Accounts.create
  Keeps-create_account input = Keeps-statement (OnTables-Since rows) env _ (λ w h.
      let row = account_row input (env.db_uuid w.trace) (env.db_now w.trace) in
      elim (Bool-cases (any (account_clash row) w.accounts)) [
        | inl e ↦ rw e h
        | inr e ↦ rw e (Since-accounts w _ h)
      ])

  marked :
      (id : String) (found : Option Account) (w : World)
      → Since rows w
      → Since rows (updated_account id found w).1
  marked id none w h = h
  marked id (some row) w h = h

  Keeps-mark_multisig_configured :
      (id : String) → Keeps (Since rows) (Accounts.mark_multisig_configured env id)
  unfolding Accounts.mark_multisig_configured
  Keeps-mark_multisig_configured id = Keeps-statement (OnTables-Since rows) env _ (λ w h.
      let accounts =
        update_where (λ row. row.id == id)
          (λ row. record row { multisig_configured = true; updated_at = env.date_now w.trace })
          w.accounts in
      marked id (find (λ row. row.id == id) accounts) (record w { accounts = accounts })
        (Since-accounts w accounts h))

  Keeps-engine : {A : Type 0} (m : Net A) → Keeps (Since rows) (net m)
  Keeps-engine m = Keeps-net (OnTables-Since rows) m

  Keeps-fund_if_testnet :
      (network : StellarNetwork) (key : String)
      → Keeps (Since rows) (Custody.fund_if_testnet env network key)
  unfolding Custody.get_or_create_stellar_account
  Keeps-fund_if_testnet testnet key = Keeps-engine _
  Keeps-fund_if_testnet _ key = Keeps-pure _

  Keeps-existing_or_new :
      (user_id : String) (found : Option Account)
      → Keeps (Since rows) (Custody.existing_or_new env user_id found)
  unfolding Custody.get_or_create_stellar_account
  Keeps-existing_or_new user_id (some account) = Keeps-pure account
  Keeps-existing_or_new user_id none = Keeps-bind _ _ (Keeps-engine _) (λ signer.
      Keeps-bind _ _ (Keeps-fund_if_testnet env.config.stellar_network signer.public_key)
        (λ _. Keeps-create_account _))

  pub Keeps-get_or_create_stellar_account :
      (user_id : String) → Keeps (Since rows) (Custody.get_or_create_stellar_account env user_id)
  unfolding Custody.get_or_create_stellar_account
  Keeps-get_or_create_stellar_account user_id =
      Keeps-bind _ _ (Keeps-find_by_user_id user_id) (Keeps-existing_or_new user_id)

  -- `sendPayment`
  Keeps-after_opening :
      (account : Account) (input : SendPaymentInput) (quote : Option PathQuote) (key : String)
      (opening : Opening)
      → Ensures
          (Opened env rows (payment_row account input quote key) (ok opening))
          (Send.after_opening env account input quote opening)
          (λ _ w. Since rows w)
  unfolding Send.send_ordinary
  Keeps-after_opening account input quote key (repeated row) = Ensures-pure row (λ w h. h)
  Keeps-after_opening account input quote key (fresh row) =
      Ensures-bind (λ _ w. Open rows row.id pending w) _ _
        (Ensures-net (OnTables-Open env rows row.id pending) _)
        (λ wallet. Ensures-settle env rows ordinary row.id _) (λ e w h. h.since)

  Ensures-send_ordinary :
      (account : Account) (input : SendPaymentInput) (quote : Option PathQuote) (key : String)
      → Ensures (Since rows) (Send.send_ordinary env account input quote key) (λ _ w. Since rows w)
  unfolding Send.send_ordinary
  Ensures-send_ordinary account input quote key =
      Ensures-bind (Opened env rows (payment_row account input quote key)) _ _
        (Ensures-open_transaction env rows (payment_row account input quote key))
        (Keeps-after_opening account input quote key) (λ e w h. h)

  Keeps-with_multisig : (account : Account) → Keeps (Since rows) (Send.with_multisig env account)
  unfolding Send.with_multisig
  Keeps-with_multisig account = Keeps-if account.multisig_configured _ _ (Keeps-pure account) (
      Keeps-bind _ _ (Keeps-engine _) (λ wallet. Keeps-bind _ _ (Keeps-engine _) (λ admin.
        Keeps-bind _ _ (Keeps-engine _) (λ _. Keeps-mark_multisig_configured account.id))))

  Opened-Since :
      (input : NewTransaction) (opening : Opening) (w : World)
      → Opened env rows input (ok opening) w
      → Since rows w
  Opened-Since input (fresh row) w h = h.since
  Opened-Since input (repeated row) w h = h

  Ensures-propose_row :
      (input : NewTransaction)
      → Ensures
          (Since rows)
          (Send.open_transaction env input >>= λ opening. pure (Send.opened_row env opening))
          (λ _ w. Since rows w)
  Ensures-propose_row input =
      Ensures-bind (Opened env rows input) _ _ (Ensures-open_transaction env rows input)
        (λ opening. Ensures-pure _ (Opened-Since input opening)) (λ e w h. h)

  Ensures-existing_or_propose :
      (account : Account) (input : SendPaymentInput) (key : String) (found : Option Transaction)
      → Ensures
          (Since rows)
          (Send.existing_or_propose env account input key found)
          (λ _ w. Since rows w)
  unfolding Send.send_high_value_payment
  Ensures-existing_or_propose account input key (some row) = Ensures-pure row (λ w h. h)
  Ensures-existing_or_propose account input key none =
      Ensures-bind (λ _ w. Since rows w) _ _ (Ensures-Keeps _ (Keeps-with_multisig account))
        (λ current.
          Ensures-bind (λ _ w. Since rows w) _ _ (Ensures-Keeps _ (Keeps-engine _))
            (λ wallet.
              Ensures-bind (λ _ w. Since rows w) _ _ (Ensures-Keeps _ (Keeps-engine _))
                (λ envelope_xdr.
                  Ensures-propose_row (high_value_row current input key envelope_xdr))
                (λ e w h. h))
            (λ e w h. h))
        (λ e w h. h)

  Keeps-key_or_random : (key : Option String) → Keeps (Since rows) (Send.key_or_random env key)
  unfolding Send.send_payment
  Keeps-key_or_random none = Keeps-engine _
  Keeps-key_or_random (some key) = Keeps-pure key

  Keeps-quote_or_fail :
      (quote : Option PathQuote) → Keeps (Since rows) (Paths.quote_or_fail env quote)
  unfolding Paths.resolve_path_quote
  Keeps-quote_or_fail none = Keeps-throw _
  Keeps-quote_or_fail (some quote) = Keeps-pure quote

  Keeps-quote_if_path :
      (input : SendPaymentInput) → Keeps (Since rows) (Send.quote_if_path env input)
  unfolding Send.send_payment Paths.resolve_path_quote
  Keeps-quote_if_path input =
      Keeps-if (truthy input.receive_asset_code && truthy input.receive_asset_issuer) _ _
        (Keeps-bind _ _ (Keeps-bind _ _ (Keeps-engine _) Keeps-quote_or_fail)
          (λ quote. Keeps-pure (some quote)))
        (Keeps-pure none)

  pub Ensures-send_payment :
      (user_id : String) (input : SendPaymentInput)
      → Ensures (Since rows) (Send.send_payment env user_id input) (λ _ w. Since rows w)
  unfolding Send.send_payment Send.send_high_value_payment
  Ensures-send_payment user_id input =
      Ensures-bind (λ _ w. Since rows w) _ _
        (Ensures-Keeps _ (Keeps-get_or_create_stellar_account user_id))
        (λ account.
          Ensures-bind (λ _ w. Since rows w) _ _
            (Ensures-Keeps _ (Keeps-key_or_random input.idempotency_key))
            (λ key.
              Ensures-bind (λ _ w. Since rows w) _ _ (Ensures-Keeps _ (Keeps-quote_if_path input))
                (λ quote.
                  Ensures-if (Send.is_high_value_payment env input quote) _ _
                    (λ _.
                      Ensures-bind (λ _ w. Since rows w) _ _
                        (Ensures-Keeps _ (Keeps-find_by_idempotency_key env rows key))
                        (Ensures-existing_or_propose account input key) (λ e w h. h))
                    (λ _. Ensures-send_ordinary account input quote key))
                (λ e w h. h))
            (λ e w h. h))
        (λ e w h. h)
