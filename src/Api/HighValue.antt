-- ===== src/Api/HighValue.antt =====
-- What `sendHighValuePayment` (apps/api, payments.service.ts) submits.
use mix_match_onchain.Base.{
  String, true, Option, none, some, List, [], refl, any, find, update_where, ◌==◌, Bool-cases, inl,
  inr,
}
use mix_match_onchain.Exec.Rules.{Keeps, Keeps-bind, Keeps-try, Keeps-throw, Keeps-pure, Keeps-if}
use mix_match_onchain.Error.{Error, duplicate_idempotency_key}
use mix_match_onchain.Env.{Env}
use mix_match_onchain.Env.Sdk.{Envelope}
use mix_match_onchain.Env.Calls.{Call}
use mix_match_onchain.Stellar.Net.{Net}
use mix_match_onchain.Stellar.Quiet.{submissions, Keeps-build_high_value_payment_envelope}
use mix_match_onchain.Stellar.Setup.{
  OnlySetup, KeepsOperations, IsQuiet-OnlySetup, Keeps-configure_multisig,
}
use mix_match_onchain.Api.Store.Rules.{OnStatements, Keeps-stated}
use mix_match_onchain.Api.Rows.{Account, Transaction, World}
use mix_match_onchain.Api.Store.{App, net, statement, is_unique_violation}
use mix_match_onchain.Api.Accounts
use mix_match_onchain.Api.Accounts.{updated_account}
use mix_match_onchain.Api.Transactions
use mix_match_onchain.Api.Transactions.{NewTransaction, transaction_row, transaction_clash}
use mix_match_onchain.Api.Paths.{SendPaymentInput}
use mix_match_onchain.Api.Send
use mix_match_onchain.Api.Send.{Opening}
use mix_match_onchain.Api.Quiet.{Keeps-wallet_for_account, Keeps-admin_wallet}

module _ (env : Env) (k : KeepsOperations env) (base : List Envelope) where
  abbrev SetupOnly : World → Type 0
  SetupOnly w = OnlySetup base w.trace

  Keeps-traced : {A : Type 0} (m : Net A) → Keeps (OnlySetup base) m → Keeps SetupOnly (net m)
  unfolding net
  Keeps-traced m h = record { at = λ w p. h.at w.trace p }

  OnStatements-SetupOnly : OnStatements SetupOnly
  OnStatements-SetupOnly = record {
    counted = λ w p. (IsQuiet-OnlySetup base).step Call.statement w.trace refl p;
  }

  Keeps-SetupOnly :
      {A : Type 0} (m : App A)
      → ((w : World) → SetupOnly w → SetupOnly (m w).1)
      → Keeps SetupOnly (statement env m)
  Keeps-SetupOnly = Keeps-stated OnStatements-SetupOnly env

  at_updated_account :
      (id : String) (found : Option Account) (w : World)
      → SetupOnly w
      → SetupOnly (updated_account id found w).1
  at_updated_account id none w p = p
  at_updated_account id (some row) w p = p

  Keeps-mark_multisig_configured :
      (id : String) → Keeps SetupOnly (Accounts.mark_multisig_configured env id)
  unfolding Accounts.mark_multisig_configured
  Keeps-mark_multisig_configured id = Keeps-SetupOnly _ (λ w p.
      let rows =
        update_where (λ (row : Account). row.id == id)
          (λ row. record row { multisig_configured = true; updated_at = env.date_now w.trace })
          w.accounts in
      at_updated_account id (find (λ row. row.id == id) rows) (record w { accounts = rows }) p)

  Keeps-with_multisig : (account : Account) → Keeps SetupOnly (Send.with_multisig env account)
  unfolding Send.with_multisig
  Keeps-with_multisig account = Keeps-if account.multisig_configured _ _ (Keeps-pure account) (
      Keeps-bind _ _
        (Keeps-traced _ (Keeps-wallet_for_account (IsQuiet-OnlySetup base) env account))
        (λ wallet.
          Keeps-bind _ _ (Keeps-traced _ (Keeps-admin_wallet (IsQuiet-OnlySetup base) env))
            (λ admin.
              Keeps-bind _ _
                (Keeps-traced _ (Keeps-configure_multisig env k base wallet admin.public_key none))
                (λ _. Keeps-mark_multisig_configured account.id))))

  Keeps-create : (input : NewTransaction) → Keeps SetupOnly (Transactions.create env input)
  unfolding Transactions.create
  Keeps-create input =
      Keeps-try _ _
        (Keeps-SetupOnly _ (λ w p.
          elim (Bool-cases (
            any
              (transaction_clash (transaction_row input (env.db_uuid w.trace) (env.db_now w.trace)))
              w.transactions)) [ inl e ↦ rw e p | inr e ↦ rw e p ]))
        (λ error. Keeps-if (is_unique_violation error) _ _ (Keeps-throw _) (Keeps-throw _))

  Keeps-find_by_key :
      (key : String) → Keeps SetupOnly (Transactions.find_by_idempotency_key env key)
  unfolding Transactions.find_by_idempotency_key
  Keeps-find_by_key key = Keeps-SetupOnly _ (λ w p. p)

  Keeps-repeated_or_throw :
      (error : Error) (found : Option Transaction)
      → Keeps SetupOnly (Send.repeated_or_throw env error found)
  unfolding Send.open_transaction
  Keeps-repeated_or_throw error none = Keeps-throw error
  Keeps-repeated_or_throw error (some row) = Keeps-pure _

  Keeps-on_duplicate :
      (key : String) (error : Error) → Keeps SetupOnly (Send.on_duplicate env key error)
  unfolding Send.open_transaction
  Keeps-on_duplicate key (duplicate_idempotency_key given) =
      Keeps-bind _ _ (Keeps-find_by_key key)
        (Keeps-repeated_or_throw (duplicate_idempotency_key given))
  Keeps-on_duplicate key error = Keeps-throw error

  Keeps-open_transaction :
      (input : NewTransaction) → Keeps SetupOnly (Send.open_transaction env input)
  unfolding Send.open_transaction
  Keeps-open_transaction input =
      Keeps-try _ _ (Keeps-bind _ _ (Keeps-create input) (λ row. Keeps-pure _))
        (Keeps-on_duplicate input.idempotency_key)

  Keeps-propose :
      (account : Account) (input : SendPaymentInput) (key : String)
      → Keeps SetupOnly (Send.propose env account input key)
  unfolding Send.send_high_value_payment
  Keeps-propose account input key = Keeps-bind _ _ (Keeps-with_multisig account) (λ current.
      Keeps-bind _ _
        (Keeps-traced _ (Keeps-wallet_for_account (IsQuiet-OnlySetup base) env current))
        (λ wallet.
          Keeps-bind _ _
            (Keeps-traced _
              (Keeps-build_high_value_payment_envelope (IsQuiet-OnlySetup base) env _))
            (λ xdr. Keeps-bind _ _ (Keeps-open_transaction _) (λ opening. Keeps-pure _))))

  Keeps-existing_or_propose :
      (account : Account) (input : SendPaymentInput) (key : String) (found : Option Transaction)
      → Keeps SetupOnly (Send.existing_or_propose env account input key found)
  unfolding Send.send_high_value_payment
  Keeps-existing_or_propose account input key none = Keeps-propose account input key
  Keeps-existing_or_propose account input key (some row) = Keeps-pure row

  Keeps-send_high_value_payment :
      (account : Account) (input : SendPaymentInput) (key : String)
      → Keeps SetupOnly (Send.send_high_value_payment env account input key)
  unfolding Send.send_high_value_payment
  Keeps-send_high_value_payment account input key =
      Keeps-bind _ _ (Keeps-find_by_key key) (Keeps-existing_or_propose account input key)

-- Where the SDK leaves an envelope's operations alone, a request for a payment of high value submits
-- nothing that moves funds, whatever fails: no envelope that it hands to Horizon holds a payment or
-- a path payment.
pub send_high_value_payment-OnlySetup :
    (env : Env) (w : World) (account : Account) (input : SendPaymentInput) (key : String)
    → KeepsOperations env
    → OnlySetup (submissions w.trace) (Send.send_high_value_payment env account input key w).1.trace
send_high_value_payment-OnlySetup env w account input key k =
    (Keeps-send_high_value_payment env k (submissions w.trace) account input key).at w
      (record { since = []; submitted = refl; harmless = tt })
