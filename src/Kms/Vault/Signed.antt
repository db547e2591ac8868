-- ===== src/Kms/Vault/Signed.antt =====
-- What a signature of Vault is read as (packages/kms/src/vault-transit-client.ts, `sign`).
use mix_match_onchain.Base.{
  false, same_code, ◌≡◌, refl, ap, ◌∙◌, Bool-cases, inl, inr, String, List, [], ◌∷◌, ◌++◌, Text,
  split, NoColon, split-last, concat,
}
use mix_match_onchain.Exec.{ok, lift, pure, ◌>>=◌}
use mix_match_onchain.Env.Http.{post}
use mix_match_onchain.Kms.Vault.{
  Outside, VaultTransitConfig, VaultRequest, VaultResponse, signature_of, sign_input, base_url,
  key_path, is_empty, last_part, send, read_response, read_signature, request, sign,
}

-- The last of two parts or more.
abbrev EndsIn : Text → List Text → Type 0
EndsIn part parts =
    (first second : Text) × (rest : List Text) × (parts ≡ first ∷ (second ∷ rest))
    × (last_part (second ∷ rest) ≡ part)

split-EndsIn : (prefix part : Text) → NoColon part → EndsIn part (split 58 (prefix ++ 58 ∷ part))
split-EndsIn [] part h = ([], part, [], ap (λ l. [] ∷ l) (split-last part h), refl)
split-EndsIn (c ∷ prefix) part h =
    let (first, second, rest, e, l) = split-EndsIn prefix part h in
    elim (Bool-cases (same_code c 58)) [
      | inl t ↦ ([], first, second ∷ rest, rw (t, e) refl, l)
      | inr f ↦ (c ∷ first, second, rest, rw (f, e) refl, l)
    ]

last_part-split :
    (prefix part : Text) → NoColon part → last_part (split 58 (prefix ++ 58 ∷ part)) ≡ part
last_part-split prefix part h =
    let (first, second, rest, e, l) = split-EndsIn prefix part h in ap last_part e ∙ l

module _ (outside : Outside) (config : VaultTransitConfig) where
  -- The request of `sign`.
  abbrev pub sign_request : String → outside.Bytes → VaultRequest
  sign_request key_name data_bytes = record {
    method = post;
    url = concat (base_url config) (key_path outside config "/sign/" key_name);
    token = config.token;
    body = sign_input (outside.base64 data_bytes);
  }

  -- When Vault answers a request to sign with 200 and a signature `<prefix>:<base64>`, the caller
  -- gets the bytes, whatever the prefix, after that one request.
  pub sign-signature :
      (key_name : String) (data_bytes signature : outside.Bytes) (requests : List VaultRequest)
      (response : VaultResponse) (prefix : Text)
      → outside.from_base64 (outside.base64 signature) ≡ signature
      → NoColon (outside.base64 signature)
      → is_empty (outside.base64 signature) ≡ false
      → outside.fetch requests (sign_request key_name data_bytes) ≡ ok response
      → response.status ≡ 200
      → response.json ≡ ok (signature_of (prefix ++ 58 ∷ outside.base64 signature))
      → sign outside config key_name data_bytes requests
        ≡ (ok signature, sign_request key_name data_bytes ∷ requests)
  unfolding sign request send read_response read_signature lift ◌>>=◌ pure
  sign-signature key_name data_bytes signature requests response prefix back plain full answered
        status json =
      simp
        (
          answered,
          status,
          json,
          last_part-split prefix (outside.base64 signature) plain,
          full,
          back,
        )
        refl
