-- ===== src/Api/Encryption.antt =====
-- apps/api/src/modules/payments/wallet-encryption.ts, over texts as lists of code points; bytes and
-- what node:crypto and Buffer do with them are a record of parameters.
use mix_match_onchain.Base.{
  ◌≡◌, refl, sym, ap, ◌∙◌, List, [], ◌∷◌, ◌++◌, Text, split, NoColon, split-part, split-last,
}
use mix_match_onchain.Exec.{Result, ok, err}
use mix_match_onchain.Error.{Error, plain}

-- The cipher `aes-256-gcm` by key and initialisation vector: the ciphertext and its tag, or an error
-- for a key of the wrong length; and back, with an error for a tag that does not verify.
pub record Crypto : Type 1 where
  pub Bytes : Type 0
  pub hex : Bytes → Text
  pub from_hex : Text → Bytes
  pub encode : Text → Bytes
  pub decode : Bytes → Text
  pub seal : (key iv plaintext : Bytes) → Result Error (Bytes × Bytes)
  pub reveal : (key iv tag ciphertext : Bytes) → Result Error Bytes

-- `a.toString('hex') + ':' + ...`
abbrev pub join_parts : (iv tag ciphertext : Text) → Text
join_parts iv tag ciphertext = iv ++ (58 ∷ (tag ++ (58 ∷ ciphertext)))

module _ (crypto : Crypto) where
  abbrev pub sealed : crypto.Bytes → Result Error (crypto.Bytes × crypto.Bytes) → Result Error Text
  sealed iv (err e) = err e
  sealed iv (ok (ciphertext, tag)) =
      ok (join_parts (crypto.hex iv) (crypto.hex tag) (crypto.hex ciphertext))

  -- `encryptSecretKey`, with the random initialisation vector
  unfoldable pub encrypt_secret_key :
      (iv : crypto.Bytes) (secret_key encryption_key : Text) → Result Error Text
  encrypt_secret_key iv secret_key encryption_key =
      sealed iv (crypto.seal (crypto.from_hex encryption_key) iv (crypto.encode secret_key))

  abbrev pub decoded : Result Error crypto.Bytes → Result Error Text
  decoded (err e) = err e
  decoded (ok plaintext) = ok (crypto.decode plaintext)

  abbrev pub decrypt_parts : List Text → Text → Result Error Text
  decrypt_parts (iv ∷ tag ∷ ciphertext ∷ []) encryption_key = decoded (
      crypto.reveal (crypto.from_hex encryption_key) (crypto.from_hex iv) (crypto.from_hex tag)
        (crypto.from_hex ciphertext))
  decrypt_parts _ encryption_key = err (plain "Malformed encrypted secret key")

  -- `decryptSecretKey`
  unfoldable pub decrypt_secret_key : (encrypted encryption_key : Text) → Result Error Text
  decrypt_secret_key encrypted encryption_key = decrypt_parts (split 58 encrypted) encryption_key

split-join_parts :
    (iv tag ciphertext : Text)
    → NoColon iv
    → NoColon tag
    → NoColon ciphertext
    → split 58 (join_parts iv tag ciphertext) ≡ iv ∷ tag ∷ ciphertext ∷ []
split-join_parts iv tag ciphertext a b c =
    split-part iv (tag ++ 58 ∷ ciphertext) a
    ∙ ap (λ l. iv ∷ l) (split-part tag ciphertext b ∙ ap (λ l. tag ∷ l) (split-last ciphertext c))

-- What node:crypto and Buffer document: hexadecimal text is read back and has no colon, the
-- secret key's UTF-8 is read back, and a sealed text is revealed by the same key, vector and tag.
pub record IsSound (crypto : Crypto) (secret_key : Text) : Type 0 where
  pub hex_back : (b : crypto.Bytes) → crypto.from_hex (crypto.hex b) ≡ b
  pub hex_plain : (b : crypto.Bytes) → NoColon (crypto.hex b)
  pub text_back : crypto.decode (crypto.encode secret_key) ≡ secret_key
  pub revealed :
      (key iv plaintext ciphertext tag : crypto.Bytes)
      → crypto.seal key iv plaintext ≡ ok (ciphertext, tag)
      → crypto.reveal key iv tag ciphertext ≡ ok plaintext

same_ok : (r : Result Error Text) (a b : Text) → r ≡ ok a → r ≡ ok b → a ≡ b
same_ok r a b e f = cc

module _ (crypto : Crypto) (iv : crypto.Bytes) (secret_key : Text)
    (sound : IsSound crypto secret_key) where
  sealed-decrypt :
      (encryption_key encrypted : Text) (r : Result Error (crypto.Bytes × crypto.Bytes))
      → crypto.seal (crypto.from_hex encryption_key) iv (crypto.encode secret_key) ≡ r
      → sealed crypto iv r ≡ ok encrypted
      → decrypt_secret_key crypto encrypted encryption_key ≡ ok secret_key
  unfolding decrypt_secret_key
  sealed-decrypt encryption_key encrypted (err e) s h = cc
  sealed-decrypt encryption_key encrypted (ok (ciphertext, tag)) s h =
      ap (λ t. decrypt_parts crypto (split 58 t) encryption_key) (sym (same_ok _ _ _ refl h))
      ∙ ap (λ parts. decrypt_parts crypto parts encryption_key)
          (split-join_parts (crypto.hex iv) (crypto.hex tag) (crypto.hex ciphertext)
            (sound.hex_plain iv) (sound.hex_plain tag) (sound.hex_plain ciphertext))
      ∙ rw (sound.hex_back iv, sound.hex_back tag, sound.hex_back ciphertext)
          (rw
            (sound.revealed (crypto.from_hex encryption_key) iv (crypto.encode secret_key)
              ciphertext tag s)
            (ap (λ t. ok t) sound.text_back))

  -- What the encryption of a secret key gives, the decryption with the same key gives back.
  pub decrypt-encrypt :
      (encryption_key encrypted : Text)
      → encrypt_secret_key crypto iv secret_key encryption_key ≡ ok encrypted
      → decrypt_secret_key crypto encrypted encryption_key ≡ ok secret_key
  unfolding encrypt_secret_key
  decrypt-encrypt encryption_key encrypted h =
      sealed-decrypt encryption_key encrypted
        (crypto.seal (crypto.from_hex encryption_key) iv (crypto.encode secret_key)) refl h
