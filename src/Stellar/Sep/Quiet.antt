-- ===== src/Stellar/Sep/Quiet.antt =====
-- The protocols of packages/stellar/src/sep submit nothing to Horizon.
use mix_match_onchain.Base.{String, not, ◌==◌, refl}
use mix_match_onchain.Exec.{Result}
use mix_match_onchain.Exec.Rules.{Keeps, Keeps-bind, Keeps-if, Keeps-throw, Keeps-pure, Keeps-lift}
use mix_match_onchain.Error.{Error}
use mix_match_onchain.Env.{Env}
use mix_match_onchain.Env.Http.{Request, Response, is_ok}
use mix_match_onchain.Env.Calls.{Trace}
use mix_match_onchain.Env.Web.{Challenge}
use mix_match_onchain.Stellar.Quiet.{IsQuiet, Keeps-ask, Keeps-sign}
use mix_match_onchain.Stellar.Sep.Http.{fetch, ok_text}
use mix_match_onchain.Stellar.Sep.Toml.{fetch_stellar_toml}
use mix_match_onchain.Stellar.Sep.Auth.{
  Sep10AuthParams, fetch_challenge, check_challenge, exchange, authenticate_sep10, signed_by,
}
use mix_match_onchain.Stellar.Sep.Transfer.{
  InitiateSep24Params, fetch_json, initiate_sep24_deposit, initiate_sep24_withdraw,
  get_sep24_transaction,
}

module _ {P : Trace → Type 0} (q : IsQuiet P) (env : Env) where
  Keeps-fetch : (request : Request) → Keeps P (fetch env request)
  unfolding fetch
  Keeps-fetch request = Keeps-ask q env _ _ refl

  Keeps-ok_text :
      (refusal : Response → Error) (response : Response) → Keeps P (ok_text env refusal response)
  unfolding ok_text
  Keeps-ok_text refusal response = Keeps-if (is_ok response) _ _ (Keeps-lift _) (Keeps-throw _)

  pub Keeps-fetch_stellar_toml : (home : String) → Keeps P (fetch_stellar_toml env home)
  unfolding fetch_stellar_toml
  Keeps-fetch_stellar_toml home = Keeps-bind _ _ (Keeps-fetch _) (λ response.
      Keeps-bind _ _ (Keeps-ok_text _ response)
        (λ body. Keeps-bind _ _ (Keeps-lift _) (λ raw. Keeps-pure _)))

  Keeps-fetch_challenge : (params : Sep10AuthParams) → Keeps P (fetch_challenge env params)
  unfolding fetch_challenge
  Keeps-fetch_challenge params = Keeps-bind _ _ (Keeps-lift _) (λ url.
      Keeps-bind _ _ (Keeps-fetch _) (λ response.
        Keeps-bind _ _ (Keeps-ok_text _ response)
          (λ body. Keeps-bind _ _ (Keeps-lift _) (λ challenge. Keeps-lift _))))

  Keeps-check_challenge :
      (params : Sep10AuthParams) (challenge : Challenge)
      → Keeps P (check_challenge env params challenge)
  unfolding check_challenge
  Keeps-check_challenge params challenge =
      Keeps-if (not (challenge.sequence == "0")) _ _ (Keeps-throw _) (
        Keeps-bind _ _ (Keeps-lift _) (λ _.
          Keeps-if (not (signed_by env params.server_signing_key challenge)) _ _ (Keeps-throw _)
            (Keeps-pure tt)))

  Keeps-exchange :
      (params : Sep10AuthParams) (challenge : Challenge) → Keeps P (exchange env params challenge)
  unfolding exchange
  Keeps-exchange params challenge = Keeps-bind _ _ (Keeps-sign q env _ _) (λ signed.
      Keeps-bind _ _ (Keeps-fetch _)
        (λ response. Keeps-bind _ _ (Keeps-ok_text _ response) (λ body. Keeps-lift _)))

  pub Keeps-authenticate_sep10 :
      (params : Sep10AuthParams) → Keeps P (authenticate_sep10 env params)
  unfolding authenticate_sep10
  Keeps-authenticate_sep10 params = Keeps-bind _ _ (Keeps-fetch_challenge params) (λ challenge.
      Keeps-bind _ _ (Keeps-check_challenge params challenge)
        (λ _. Keeps-exchange params challenge))

  Keeps-fetch_json :
      {A : Type 0} (parse : String → Result Error A) (request : Request)
      → Keeps P (fetch_json env parse request)
  unfolding fetch_json
  Keeps-fetch_json parse request = Keeps-bind _ _ (Keeps-fetch _) (λ response.
      Keeps-if (is_ok response) _ _ (Keeps-bind _ _ (Keeps-lift _) (λ text. Keeps-lift _))
        (Keeps-throw _))

  pub Keeps-initiate_sep24_deposit :
      (params : InitiateSep24Params) → Keeps P (initiate_sep24_deposit env params)
  unfolding initiate_sep24_deposit
  Keeps-initiate_sep24_deposit params = Keeps-fetch_json _ _

  pub Keeps-initiate_sep24_withdraw :
      (params : InitiateSep24Params) → Keeps P (initiate_sep24_withdraw env params)
  unfolding initiate_sep24_withdraw
  Keeps-initiate_sep24_withdraw params = Keeps-fetch_json _ _

  pub Keeps-get_sep24_transaction :
      (server jwt id : String) → Keeps P (get_sep24_transaction env server jwt id)
  unfolding get_sep24_transaction
  Keeps-get_sep24_transaction server jwt id =
      Keeps-bind _ _ (Keeps-lift _)
        (λ url. Keeps-bind _ _ (Keeps-fetch_json _ _) (λ raw. Keeps-pure _))
