-- ===== src/Stellar/Sep/Auth.antt =====
-- packages/stellar/src/sep/sep10.ts: the web authentication with an anchor.
use mix_match_onchain.Base.{
  String, Bool, not, none, [], ◌∷◌, concat, or_default, any, ◌==◌, if◌then◌else◌,
}
use mix_match_onchain.Exec.{lift, pure, throw, ◌>>=◌, ◌>>◌}
use mix_match_onchain.Error.{Error, plain}
use mix_match_onchain.Env.{Env}
use mix_match_onchain.Env.Sdk.{Envelope}
use mix_match_onchain.Env.Http.{Response, Request, post}
use mix_match_onchain.Env.Web.{Challenge}
use mix_match_onchain.Stellar.Net.{Net}
use mix_match_onchain.Stellar.Wallet.{Wallet, sign}
use mix_match_onchain.Stellar.Sep.Http.{get_request, fetch, ok_text}

-- `Sep10AuthParams`
pub record Sep10AuthParams : Type 0 where
  pub web_auth_endpoint : String
  pub server_signing_key : String
  pub home_domain : String
  pub wallet : Wallet
  pub network_passphrase : String

module _ (env : Env) where
  abbrev pub refused : String → Response → Error
  refused what response = plain (concat what (concat " failed: HTTP " (env.show_ℕ response.status)))

  -- The anchor's challenge, read from its XDR.
  unfoldable pub fetch_challenge : Sep10AuthParams → Net Challenge
  fetch_challenge params = do
    url ← lift (
        env.web.url_with params.web_auth_endpoint
          (("account", params.wallet.public_key) ∷ ("home_domain", params.home_domain) ∷ []))
    response ← fetch env (get_request url)
    body ← ok_text env (refused "SEP-10 challenge request") response
    challenge ← lift (env.web.parse_challenge body)
    lift (
        env.web.read_challenge challenge.transaction
          (or_default challenge.network_passphrase params.network_passphrase))

  -- `transaction.signatures.some(...)`
  abbrev pub signed_by : String → Challenge → Bool
  signed_by server_key challenge =
      any (λ signature. env.web.verify server_key (env.envelope_hash challenge.envelope) signature)
        challenge.envelope.signatures

  -- The two tests that a challenge has to pass before it is signed.
  unfoldable pub check_challenge : Sep10AuthParams → Challenge → Net Unit
  check_challenge params challenge =
      if not (challenge.sequence == "0")
      then throw (plain "SEP-10 challenge transaction has a non-zero sequence number")
      else lift (env.web.check_public_key params.server_signing_key)
        >> (if not (signed_by params.server_signing_key challenge)
            then throw
                (plain "SEP-10 challenge transaction is not signed by the anchor's signing key")
            else pure tt)

  abbrev pub token_request : Sep10AuthParams → Envelope → Request
  token_request params signed = record {
    method = post;
    url = params.web_auth_endpoint;
    authorization = none;
    body = ("transaction", env.to_xdr signed) ∷ [];
  }

  -- The challenge is signed and exchanged for a token.
  unfoldable pub exchange : Sep10AuthParams → Challenge → Net String
  exchange params challenge = do
    signed ← sign env params.wallet challenge.envelope
    response ← fetch env (token_request params signed)
    body ← ok_text env (refused "SEP-10 token exchange") response
    lift (env.web.parse_token body)

  -- `authenticateSep10`
  unfoldable pub authenticate_sep10 : Sep10AuthParams → Net String
  authenticate_sep10 params = do
    challenge ← fetch_challenge params
    check_challenge params challenge
    exchange params challenge
