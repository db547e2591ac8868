-- ===== src/Api/Paths.antt =====
-- apps/api/src/modules/payments/payments.service.ts: quotes of path payments.
use mix_match_onchain.Base.{
  ℕ, String, Option, none, some, List, is_truthy, or_default, if◌then◌else◌,
}
use mix_match_onchain.Exec.{pure, throw, ◌>>=◌}
use mix_match_onchain.Error.{payment_failed, no_payment_path}
use mix_match_onchain.Env.{Env}
use mix_match_onchain.Env.Sdk.{StellarAssetRef}
use mix_match_onchain.Stellar.Net.{Net}
use mix_match_onchain.Stellar.PathPayment.{
  PathPaymentMode, strict_send, strict_receive, PathQuote, find_strict_send_path,
  find_strict_receive_path,
}
use mix_match_onchain.Api.Store.{App, net}

-- `SendPaymentInput` (packages/shared/src/validation/payments.schema.ts)
pub record SendPaymentInput : Type 0 where
  pub destination_public_key : String
  pub amount : String
  pub memo : Option String
  pub idempotency_key : Option String
  pub asset_code : Option String
  pub asset_issuer : Option String
  pub receive_asset_code : Option String
  pub receive_asset_issuer : Option String
  pub path_mode : Option PathPaymentMode
  pub slippage_bps : Option ℕ

pub record PathQuoteInput : Type 0 where
  pub source_asset_code : Option String
  pub source_asset_issuer : Option String
  pub dest_asset_code : Option String
  pub dest_asset_issuer : Option String
  pub amount : String
  pub mode : PathPaymentMode

pub record PathQuoteResponse : Type 0 where
  pub mode : PathPaymentMode
  pub source_amount : String
  pub dest_amount : String
  pub path : List (Option StellarAssetRef)

-- `code && issuer ? { code, issuer } : undefined`
abbrev pub asset_ref : Option String → Option String → Option StellarAssetRef
asset_ref none issuer = none
asset_ref (some code) none = none
asset_ref (some code) (some issuer) =
    if is_truthy code
    then (if is_truthy issuer then some (record { code = code; issuer = issuer }) else none)
    else none

module _ (env : Env) where
  pub find_path :
      PathPaymentMode
      → Option StellarAssetRef
      → Option StellarAssetRef
      → String
      → Net (Option PathQuote)
  find_path strict_send source dest amount = find_strict_send_path env source dest amount
  find_path strict_receive source dest amount = find_strict_receive_path env source dest amount

  pub quote_or_fail : Option PathQuote → App PathQuote
  quote_or_fail none = throw (
      payment_failed no_payment_path
        "No payment path exists between the two assets for the requested amount")
  quote_or_fail (some quote) = pure quote

  -- `resolvePathQuote`
  unfoldable pub resolve_path_quote : SendPaymentInput → App PathQuote
  unfolding find_path quote_or_fail
  resolve_path_quote input = do
    quote ← net (
        find_path (or_default input.path_mode strict_send)
          (asset_ref input.asset_code input.asset_issuer)
          (asset_ref input.receive_asset_code input.receive_asset_issuer) input.amount)
    quote_or_fail quote

  -- `previewPath`
  unfoldable pub preview_path : PathQuoteInput → App PathQuoteResponse
  unfolding find_path quote_or_fail
  preview_path input = do
    found ← net (
        find_path input.mode (asset_ref input.source_asset_code input.source_asset_issuer)
          (asset_ref input.dest_asset_code input.dest_asset_issuer) input.amount)
    quote ← quote_or_fail found
    pure (record {
      mode = quote.mode;
      source_amount = quote.source_amount;
      dest_amount = quote.dest_amount;
      path = quote.path;
    })
