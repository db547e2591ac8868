-- ===== src/Stellar/Sep/Toml.antt =====
-- packages/stellar/src/sep/sep1.ts: an anchor's stellar.toml.
use mix_match_onchain.Base.{String, Option, none, some, List, [], ◌∷◌, concat}
use mix_match_onchain.Exec.{lift, pure, ◌>>=◌}
use mix_match_onchain.Error.{Error, plain}
use mix_match_onchain.Env.{Env}
use mix_match_onchain.Env.Http.{Response}
use mix_match_onchain.Env.Web.{
  TomlValue, TomlEntry, TomlCurrencies, RawStellarToml, text, other, object, scalar, absent, array,
}
use mix_match_onchain.Stellar.Net.{Net}
use mix_match_onchain.Stellar.Sep.Http.{get_request, fetch, ok_text}

pub record Currency : Type 0 where
  pub code : String
  pub issuer : Option String

-- `StellarTomlInfo`
pub record StellarTomlInfo : Type 0 where
  pub signing_key : Option String
  pub web_auth_endpoint : Option String
  pub transfer_server_sep24 : Option String
  pub currencies : List Currency

-- `asString`
abbrev pub as_string : Option TomlValue → Option String
as_string none = none
as_string (some (text s)) = some s
as_string (some other) = none

-- An entry is pushed when its code is a text that is not empty.
abbrev pub push_currency : Option String → Option String → List Currency → List Currency
push_currency none issuer rest = rest
push_currency (some String.[]) issuer rest = rest
push_currency (some (String.◌∷◌ c code)) issuer rest =
    record { code = String.◌∷◌ c code; issuer = issuer } ∷ rest

abbrev pub parse_entries : List TomlEntry → List Currency
parse_entries [] = []
parse_entries (scalar ∷ entries) = parse_entries entries
parse_entries (object code issuer ∷ entries) =
    push_currency (as_string code) (as_string issuer) (parse_entries entries)

-- `parseCurrencies`
abbrev pub parse_currencies : TomlCurrencies → List Currency
parse_currencies absent = []
parse_currencies (array entries) = parse_entries entries

abbrev pub toml_info : RawStellarToml → StellarTomlInfo
toml_info raw = record {
  signing_key = as_string raw.signing_key;
  web_auth_endpoint = as_string raw.web_auth_endpoint;
  transfer_server_sep24 = as_string raw.transfer_server_sep0024;
  currencies = parse_currencies raw.currencies;
}

module _ (env : Env) where
  abbrev pub toml_url : String → String
  toml_url home_domain = concat "https://" (concat home_domain "/.well-known/stellar.toml")

  abbrev pub toml_refusal : String → Response → Error
  toml_refusal url response = plain (
      concat "Failed to fetch stellar.toml from "
        (concat url (concat ": HTTP " (env.show_ℕ response.status))))

  -- `fetchStellarToml`
  unfoldable pub fetch_stellar_toml : String → Net StellarTomlInfo
  fetch_stellar_toml home_domain = do
    response ← fetch env (get_request (toml_url home_domain))
    body ← ok_text env (toml_refusal (toml_url home_domain)) response
    raw ← lift (env.web.parse_toml body)
    pure (toml_info raw)
