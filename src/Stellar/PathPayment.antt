-- ===== src/Stellar/PathPayment.antt =====
-- packages/stellar/src/path-payment.ts: quotes for a payment across assets, and its submission.
use mix_match_onchain.Base.{
  ℕ, String, Bool, Option, none, some, List, [], ◌∷◌, map, ◌==◌, or_default, if◌then◌else◌,
}
use mix_match_onchain.Exec.{pure, lift, ◌>>=◌}
use mix_match_onchain.Env.{Env}
use mix_match_onchain.Env.Sdk.{
  StellarAssetRef, Operation, path_payment_strict_send, path_payment_strict_receive, PathHop,
  PathRecord, p70, SubmitResult,
}
use mix_match_onchain.Env.Calls.{load_account, send_paths, receive_paths}
use mix_match_onchain.Stellar.Net.{Net, ask, classified}
use mix_match_onchain.Stellar.Wallet.{Wallet, to_stellar_asset, sign}
use mix_match_onchain.Stellar.Fees.{default_transaction_timeout_seconds, resolve_fee}
use mix_match_onchain.Stellar.Payment.{text_memo, submit_transaction}

abbrev pub default_slippage_bps : ℕ
default_slippage_bps = 50

abbrev pub bps_denominator : ℕ
bps_denominator = 10000

abbrev pub amount_decimals : ℕ
amount_decimals = 7

pub data PathPaymentMode : Type 0 where
  strict_send strict_receive : PathPaymentMode

pub record PathQuote : Type 0 where
  pub mode : PathPaymentMode
  pub source_asset : Option StellarAssetRef
  pub dest_asset : Option StellarAssetRef
  pub source_amount : String
  pub dest_amount : String
  pub path : List (Option StellarAssetRef)

pub record SubmitPathPaymentParams : Type 0 where
  pub source_wallet : Wallet
  pub destination_public_key : String
  pub memo : Option String
  pub quote : PathQuote
  pub slippage_bps : Option ℕ
  pub timeout_seconds : Option ℕ

-- `pathHopToAssetRef`
abbrev pub path_hop_to_asset_ref : PathHop → Option StellarAssetRef
path_hop_to_asset_ref hop =
    if hop.asset_type == "native"
    then none
    else some (record { code = hop.asset_code; issuer = hop.asset_issuer })

-- `records.reduce`, keeping the record seen first among equals; `beats new old`.
unfoldable pub best :
    (PathRecord → PathRecord → Bool) → Option PathRecord → List PathRecord → Option PathRecord
best beats kept [] = kept
best beats none (r ∷ rs) = best beats (some r) rs
best beats (some kept) (r ∷ rs) = best beats (some (if beats r kept then r else kept)) rs

module _ (env : Env) where
  -- `reduceByBps`
  pub reduce_by_bps : String → ℕ → String
  reduce_by_bps amount bps =
      env.to_fixed
        (env.times (env.number amount)
          (env.subtract (env.of_ℕ 1) (env.divide (env.of_ℕ bps) (env.of_ℕ bps_denominator))))
        amount_decimals

  -- `increaseByBps`; `10 ** AMOUNT_DECIMALS` is 10000000.
  pub increase_by_bps : String → ℕ → String
  increase_by_bps amount bps =
      let scaled =
        env.times (env.number amount)
          (env.add (env.of_ℕ 1) (env.divide (env.of_ℕ bps) (env.of_ℕ bps_denominator))) in
      env.to_fixed
        (env.divide (env.ceil (env.times scaled (env.of_ℕ 10000000))) (env.of_ℕ 10000000))
        amount_decimals

  unfoldable pub more_received : PathRecord → PathRecord → Bool
  more_received r kept =
      env.greater (env.number r.destination_amount) (env.number kept.destination_amount)

  -- `Number(record.source_amount) < Number(min.source_amount)`
  unfoldable pub less_sent : PathRecord → PathRecord → Bool
  less_sent r kept = env.greater (env.number kept.source_amount) (env.number r.source_amount)

  module _ (source_asset dest_asset : Option StellarAssetRef) (amount : String) where
    abbrev pub send_quote : Option PathRecord → Option PathQuote
    send_quote none = none
    send_quote (some r) = some (record {
      mode = strict_send;
      source_asset = source_asset;
      dest_asset = dest_asset;
      source_amount = amount;
      dest_amount = r.destination_amount;
      path = map path_hop_to_asset_ref r.path;
    })

    abbrev pub receive_quote : Option PathRecord → Option PathQuote
    receive_quote none = none
    receive_quote (some r) = some (record {
      mode = strict_receive;
      source_asset = source_asset;
      dest_asset = dest_asset;
      source_amount = r.source_amount;
      dest_amount = amount;
      path = map path_hop_to_asset_ref r.path;
    })

    -- `findStrictSendPath`
    unfoldable pub find_strict_send_path : Net (Option PathQuote)
    unfolding best more_received
    find_strict_send_path = classified do
      records ←
          ask (send_paths (to_stellar_asset source_asset) amount (to_stellar_asset dest_asset))
            (λ t.
              env.strict_send_paths t (to_stellar_asset source_asset) amount
                (to_stellar_asset dest_asset ∷ []))
      pure (send_quote (best more_received none records))

    -- `findStrictReceivePath`
    unfoldable pub find_strict_receive_path : Net (Option PathQuote)
    unfolding best less_sent
    find_strict_receive_path = classified do
      records ←
          ask (receive_paths (to_stellar_asset source_asset) (to_stellar_asset dest_asset) amount)
            (λ t.
              env.strict_receive_paths t (to_stellar_asset source_asset ∷ [])
                (to_stellar_asset dest_asset) amount)
      pure (receive_quote (best less_sent none records))

  -- The operation that a quote's mode asks for.
  pub path_operation : PathPaymentMode → SubmitPathPaymentParams → Operation
  unfolding reduce_by_bps increase_by_bps
  path_operation strict_send params =
      path_payment_strict_send (to_stellar_asset params.quote.source_asset)
        params.quote.source_amount params.destination_public_key
        (to_stellar_asset params.quote.dest_asset)
        (reduce_by_bps params.quote.dest_amount
          (or_default params.slippage_bps default_slippage_bps))
        (map to_stellar_asset params.quote.path)
  path_operation strict_receive params =
      path_payment_strict_receive (to_stellar_asset params.quote.source_asset)
        (increase_by_bps params.quote.source_amount
          (or_default params.slippage_bps default_slippage_bps))
        params.destination_public_key (to_stellar_asset params.quote.dest_asset)
        params.quote.dest_amount (map to_stellar_asset params.quote.path)

  -- `submitPathPayment`
  unfoldable pub submit_path_payment : SubmitPathPaymentParams → Net SubmitResult
  unfolding path_operation
  submit_path_payment params = classified do
    source_account ←
        ask (load_account params.source_wallet.public_key)
          (λ t. env.load_account t params.source_wallet.public_key)
    fee ← resolve_fee env p70
    transaction ← lift (
        env.build (record {
          source = source_account;
          fee = fee;
          network_passphrase = env.config.network_passphrase;
          operations = path_operation params.quote.mode params ∷ [];
          memo = text_memo params.memo;
          timeout_seconds = or_default params.timeout_seconds default_transaction_timeout_seconds;
          signatures = [];
        }))
    signed ← sign env params.source_wallet transaction
    submit_transaction env signed
