-- ===== src/Env/Web.antt =====
-- What the anchors' protocols need from outside src/: `fetch`, `URL`, the parsers of TOML, JSON and
-- XDR, and the SDK's check of a signature. The raw objects are what a parser answers.
use mix_match_onchain.Base.{String, Bool, Option, List}
use mix_match_onchain.Exec.{Result}
use mix_match_onchain.Error.{Error}
use mix_match_onchain.Env.Sdk.{Envelope}
use mix_match_onchain.Env.Http.{Request, Response}
use mix_match_onchain.Env.Calls.{Trace}

-- `Sep24TransactionStatus` (packages/stellar/src/sep/sep24.ts)
pub data AnchorStatus : Type 0 where
  incomplete pending_user_transfer_start pending_user_transfer_complete pending_external
        pending_anchor pending_stellar pending_trust pending_user on_hold completed refunded expired
        error :
      AnchorStatus

-- `AnchorTransactionKind` (packages/shared/src/types/anchor.ts)
pub data AnchorKind : Type 0 where
  deposit withdrawal : AnchorKind

-- A value of a TOML file: a text, or another value.
pub data TomlValue : Type 0 where
  text : String → TomlValue
  other : TomlValue

-- An element of a TOML array: an object with its keys `code` and `issuer`, or another value.
pub data TomlEntry : Type 0 where
  object : Option TomlValue → Option TomlValue → TomlEntry
  scalar : TomlEntry

-- `CURRENCIES`, where it may be no array.
pub data TomlCurrencies : Type 0 where
  absent : TomlCurrencies
  array : List TomlEntry → TomlCurrencies

-- `RawStellarToml` (packages/stellar/src/sep/sep1.ts)
pub record RawStellarToml : Type 0 where
  pub signing_key : Option TomlValue
  pub web_auth_endpoint : Option TomlValue
  pub transfer_server_sep0024 : Option TomlValue
  pub currencies : TomlCurrencies

-- `ChallengeResponse` (packages/stellar/src/sep/sep10.ts)
pub record ChallengeResponse : Type 0 where
  pub transaction : String
  pub network_passphrase : Option String

-- A transaction read from XDR, with its own sequence number.
pub record Challenge : Type 0 where
  pub envelope : Envelope
  pub sequence : String

-- `Sep24InteractiveResponse`
pub record Interactive : Type 0 where
  pub url : String
  pub id : String

-- `RawSep24Transaction`
pub record RawSep24Transaction : Type 0 where
  pub id : String
  pub kind : AnchorKind
  pub status : AnchorStatus
  pub amount_in : Option String
  pub amount_out : Option String
  pub started_at : String
  pub completed_at : Option String
  pub more_info_url : Option String
  pub stellar_transaction_id : Option String
  pub external_transaction_id : Option String
  pub message : Option String

pub record AnchorWeb : Type 0 where
  pub fetch : Trace → Request → Result Error Response
  -- `new URL(base)` with its search parameters set, as a text
  pub url_with : String → List (String × String) → Result Error String
  pub parse_toml : String → Result Error RawStellarToml
  pub parse_challenge : String → Result Error ChallengeResponse
  pub parse_token : String → Result Error String
  pub parse_interactive : String → Result Error Interactive
  pub parse_transaction : String → Result Error RawSep24Transaction
  -- `new Transaction(xdr, passphrase)`
  pub read_challenge : String → String → Result Error Challenge
  -- `Keypair.fromPublicKey(key)`, and its `verify(hash, signature)`
  pub check_public_key : String → Result Error Unit
  pub verify : String → String → String → Bool
