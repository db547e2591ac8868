-- ===== src/Kms/Vault.antt =====
-- packages/kms/src/vault-transit-client.ts: the keys and signatures of Vault's transit engine, over
-- HTTP. The state is the requests made so far, the latest first.
pub mod Signed
use Prim.Native.Char.{code}
use mix_match_onchain.Base.{
  ℕ, String, Bool, true, false, Option, none, some, List, [], ◌∷◌, ◌==◌, ◌&&◌, not, leb, Text,
  split, concat, is_truthy, truthy, or_default, trim_string, if◌then◌else◌, same_code,
}
use mix_match_onchain.Exec.{Result, ok, err, Exec, lift, pure, throw, ◌>>=◌, ◌>>◌}
use mix_match_onchain.Error.{Error, plain, vault_transit}
use mix_match_onchain.Env.Http.{Method, get, post}

-- `VaultTransitConfig`
pub record VaultTransitConfig : Type 0 where
  pub address : String
  pub token : String
  pub mount_path : Option String

-- The bodies of the requests.
pub data Body : Type 0 where
  empty : Body
  new_key : (type : String) (exportable allow_plaintext_backup : Bool) → Body
  sign_input : Text → Body

pub record VaultRequest : Type 0 where
  pub method : Method
  pub url : String
  pub token : String
  pub body : Body

-- A body of an answer by its shape: `VaultKeyReadResponse`, with the public keys by version,
-- `VaultSignResponse`, or another.
pub data Payload : Type 0 where
  key_read : (latest_version : ℕ) (keys : List (ℕ × Text)) → Payload
  signature_of : Text → Payload
  other : Payload

-- `text` and `json` are what reading the body settles to.
pub record VaultResponse : Type 0 where
  pub status : ℕ
  pub text : Result Error String
  pub json : Result Error Payload

-- Bytes and Buffer's base64, `encodeURIComponent`, a number's text, and `fetch` by the requests so
-- far.
pub record Outside : Type 1 where
  pub Bytes : Type 0
  pub base64 : Bytes → Text
  pub from_base64 : Text → Bytes
  pub encode_component : String → String
  pub number_text : ℕ → String
  pub fetch : List VaultRequest → VaultRequest → Result Error VaultResponse

-- `address.replace(/\/$/, '')`
abbrev pub without_slash : String → String
without_slash String.[] = String.[]
without_slash (String.◌∷◌ c String.[]) =
    if same_code (code c) 47 then String.[] else String.◌∷◌ c String.[]
without_slash (String.◌∷◌ c (String.◌∷◌ d text)) = String.◌∷◌ c (without_slash (String.◌∷◌ d text))

-- `baseUrl`
abbrev pub base_url : VaultTransitConfig → String
base_url config =
    concat (without_slash config.address) (concat "/v1/" (or_default config.mount_path "transit"))

-- `response.text().catch(() => '')`
abbrev pub text_or_empty : Result Error String → String
text_or_empty (ok text) = text
text_or_empty (err e) = ""

-- `keys[latestVersion]?.public_key`
abbrev pub key_at : ℕ → List (ℕ × Text) → Text
key_at version [] = []
key_at version ((v, key) ∷ keys) = if same_code v version then key else key_at version keys

-- `parts[parts.length - 1]`
abbrev pub last_part : List Text → Text
last_part [] = []
last_part (part ∷ []) = part
last_part (part ∷ (next ∷ parts)) = last_part (next ∷ parts)

abbrev pub is_empty : Text → Bool
is_empty [] = true
is_empty (c ∷ text) = false

abbrev pub Vault : Type 0 → Type 0
Vault A = Exec Error (List VaultRequest) A

module _ (outside : Outside) (config : VaultTransitConfig) where
  -- `await fetch(...)`
  unfoldable pub send : VaultRequest → Vault VaultResponse
  send request requests = (outside.fetch requests request, request ∷ requests)

  abbrev pub refusal : String → VaultResponse → Error
  refusal path response =
      vault_transit
        (trim_string (
          concat "Vault request to " (
            concat path (
              concat " failed: HTTP " (
                concat (outside.number_text response.status)
                  (concat " " (text_or_empty response.text)))))))
        (some response.status)

  -- The tests of `request` on its answer; `none` is undefined.
  unfoldable pub read_response : String → VaultResponse → Vault (Option Payload)
  read_response path response =
      if not (leb 200 response.status && leb response.status 299)
      then throw (refusal path response)
      else if same_code response.status 204
      then pure none
      else (do payload ← lift response.json; pure (some payload))

  -- `request`
  unfoldable pub request : String → Method → Body → Vault (Option Payload)
  request path method body = do
    response ← send (record {
      method = method;
      url = concat (base_url config) path;
      token = config.token;
      body = body;
    })
    read_response path response

  abbrev pub key_path : String → String → String
  key_path prefix key_name = concat prefix (outside.encode_component key_name)

  -- `createSigningKey`
  unfoldable pub create_signing_key : String → Vault Unit
  create_signing_key key_name = do
    request (key_path "/keys/" key_name) post (new_key "ed25519" false false)
    pure tt

  -- A property of undefined was read.
  abbrev pub no_data : Error
  no_data = plain "Cannot read properties of undefined"

  unfoldable pub latest_key : String → Option Payload → Vault outside.Bytes
  latest_key key_name (some (key_read version keys)) =
      if is_empty (key_at version keys)
      then throw (
          vault_transit (concat "No public key found for signing key \"" (concat key_name "\""))
            none)
      else pure (outside.from_base64 (key_at version keys))
  latest_key key_name _ = throw no_data

  -- `getPublicKey`
  unfoldable pub get_public_key : String → Vault outside.Bytes
  get_public_key key_name = do
    payload ← request (key_path "/keys/" key_name) get empty
    latest_key key_name payload

  unfoldable pub read_signature : String → Option Payload → Vault outside.Bytes
  read_signature key_name (some (signature_of signature)) =
      if is_empty (last_part (split 58 signature))
      then throw (
          vault_transit (concat "Malformed signature response for key \"" (concat key_name "\""))
            none)
      else pure (outside.from_base64 (last_part (split 58 signature)))
  read_signature key_name _ = throw no_data

  -- `sign`
  unfoldable pub sign : String → outside.Bytes → Vault outside.Bytes
  sign key_name data_bytes = do
    payload ← request (key_path "/sign/" key_name) post (sign_input (outside.base64 data_bytes))
    read_signature key_name payload
