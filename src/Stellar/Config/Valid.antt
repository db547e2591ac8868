-- ===== src/Stellar/Config/Valid.antt =====
-- What a configuration that loads is like (packages/stellar/src/config.ts, `loadStellarConfig`).
use mix_match_onchain.Base.{String, Bool, true, ◌||◌, Option, none, some, ◌≡◌, ◌==◌, ◌⊎◌}
use mix_match_onchain.Exec.{Result, ok, err}
use mix_match_onchain.Error.{Error}
use mix_match_onchain.Env.Sdk.{StellarNetwork, testnet, public, futurenet, standalone}
use mix_match_onchain.Env.Numbers.{JsNumber}
use mix_match_onchain.Stellar.Config.{StellarConfig, ProcessEnv}

-- The value of a result that has one satisfies `P`.
abbrev pub Value : {A : Type 0} → (A → Type 0) → Result Error A → Type 0
Value P (ok a) = P a
Value P (err e) = Unit

pub record Holds {A : Type 0} (P : A → Type 0) (r : Result Error A) : Type 0 where
  pub value : Value P r

-- The names of the networks (`StellarNetwork`).
abbrev pub network_name : StellarNetwork → String
network_name testnet = "testnet"
network_name public = "public"
network_name futurenet = "futurenet"
network_name standalone = "standalone"

module _ (protocol : String → Option String) (valid_contract : String → Bool)
    (number : String → JsNumber) where
  -- The text is a URL, of one of the two protocols.
  abbrev pub IsHttp : String → Type 0
  IsHttp url = (p : String) × (protocol url ≡ some p) × (((p == "https:") || (p == "http:")) ≡ true)

  abbrev pub IsContract : Option String → Type 0
  IsContract none = Unit
  IsContract (some id) = valid_contract id ≡ true

  -- The variable is the network's name; or it is none of the other names, and the network is
  -- testnet.
  abbrev pub IsNamed : Option String → StellarNetwork → Type 0
  IsNamed variable network =
      (variable ≡ some (network_name network))
      ⊎ ((network ≡ testnet)
          × ((other : StellarNetwork) → variable ≡ some (network_name other) → other ≡ testnet))

  -- Both endpoints are HTTP URLs, the contract has a valid id or is left out, and the network is the
  -- one that the variable names.
  abbrev pub IsValid : ProcessEnv → StellarConfig → Type 0
  IsValid env config =
      IsHttp config.horizon_url
      × IsHttp config.rpc_url
      × IsContract config.escrow_contract_id
      × IsNamed env.stellar_network config.network
