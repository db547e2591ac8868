-- ===== src/Stellar/Quiet.antt =====
-- What of the engine submits nothing: the envelopes handed to Horizon stay as they were.
use mix_match_onchain.Base.{String, Bool, true, false, Option, List, [], ◌∷◌, ◌≡◌, refl, ◌∙◌, arith}
use mix_match_onchain.Exec.{Result}
use mix_match_onchain.Exec.Rules.{Keeps, Keeps-bind, Keeps-try, Keeps-throw, Keeps-pure, Keeps-lift}
use mix_match_onchain.Error.{Error}
use mix_match_onchain.Env.{Env}
use mix_match_onchain.Env.Sdk.{StellarNetwork, testnet, StellarAssetRef, Envelope, FeePercentile}
use mix_match_onchain.Env.Calls.{Call, Trace, submit}
use mix_match_onchain.Stellar.Net.{Net, ask, classified}
use mix_match_onchain.Stellar.Wallet.{Wallet, Signer, keypair, vault, sign, sign_with}
use mix_match_onchain.Stellar.Fees.{resolve_fee}
use mix_match_onchain.Stellar.PathPayment.{find_strict_send_path, find_strict_receive_path}
use mix_match_onchain.Stellar.Multisig.{EnvelopeParams, build_high_value_payment_envelope}
use mix_match_onchain.Stellar.Trustline.{fund_testnet_account}

-- The envelopes that were handed to `horizon.submitTransaction`, the latest first.
abbrev pub submissions : Trace → List Envelope
submissions [] = []
submissions (submit e ∷ t) = e ∷ submissions t
submissions (_ ∷ t) = submissions t

abbrev pub is_submit : Call → Bool
is_submit (submit e) = true
is_submit _ = false

-- A predicate that a call other than a submission keeps.
pub record IsQuiet (P : Trace → Type 0) : Type 0 where
  pub step : (c : Call) (t : Trace) → is_submit c ≡ false → P t → P (c ∷ t)

abbrev pub Submitted : List Envelope → Trace → Type 0
Submitted es t = submissions t ≡ es

pub submissions-quiet :
    (c : Call) (t : Trace) → is_submit c ≡ false → submissions (c ∷ t) ≡ submissions t
submissions-quiet c t h = ground arith

module _ {P : Trace → Type 0} (q : IsQuiet P) (env : Env) where
  pub Keeps-ask :
      {A : Type 0} (c : Call) (answer : Trace → Result Error A)
      → is_submit c ≡ false
      → Keeps P (ask c answer)
  unfolding ask
  Keeps-ask c answer h = record { at = λ t p. q.step c t h p }

  pub Keeps-classified : {A : Type 0} (m : Net A) → Keeps P m → Keeps P (classified m)
  unfolding classified
  Keeps-classified m k = Keeps-try m _ k (λ e. Keeps-throw _)

  Keeps-sign_with :
      (signer : Signer) (key : String) (e : Envelope) → Keeps P (sign_with env signer key e)
  unfolding sign
  Keeps-sign_with (keypair secret) key e = Keeps-pure _
  Keeps-sign_with (vault name) key e = Keeps-bind _ _ (Keeps-ask _ _ refl) (λ s. Keeps-lift _)

  pub Keeps-sign : (wallet : Wallet) (e : Envelope) → Keeps P (sign env wallet e)
  unfolding sign
  Keeps-sign wallet e = Keeps-sign_with wallet.signer wallet.public_key e

  pub Keeps-resolve_fee : (p : FeePercentile) → Keeps P (resolve_fee env p)
  unfolding resolve_fee
  Keeps-resolve_fee p =
      Keeps-try _ _ (Keeps-bind _ _ (Keeps-ask _ _ refl) (λ s. Keeps-pure _)) (λ _. Keeps-pure _)

  pub Keeps-find_strict_send_path :
      (source dest : Option StellarAssetRef) (amount : String)
      → Keeps P (find_strict_send_path env source dest amount)
  unfolding find_strict_send_path
  Keeps-find_strict_send_path source dest amount =
      Keeps-classified _ (Keeps-bind _ _ (Keeps-ask _ _ refl) (λ s. Keeps-pure _))

  pub Keeps-find_strict_receive_path :
      (source dest : Option StellarAssetRef) (amount : String)
      → Keeps P (find_strict_receive_path env source dest amount)
  unfolding find_strict_receive_path
  Keeps-find_strict_receive_path source dest amount =
      Keeps-classified _ (Keeps-bind _ _ (Keeps-ask _ _ refl) (λ s. Keeps-pure _))

  pub Keeps-build_high_value_payment_envelope :
      (params : EnvelopeParams) → Keeps P (build_high_value_payment_envelope env params)
  unfolding build_high_value_payment_envelope
  Keeps-build_high_value_payment_envelope params = Keeps-classified _ (
      Keeps-bind _ _ (Keeps-ask _ _ refl) (λ account. Keeps-bind _ _ (Keeps-resolve_fee _) (λ fee.
        Keeps-bind _ _ (Keeps-lift _)
          (λ transaction. Keeps-bind _ _ (Keeps-sign _ _) (λ signed. Keeps-pure _)))))

  pub Keeps-fund_testnet_account :
      (network : StellarNetwork) (key : String) → Keeps P (fund_testnet_account env network key)
  unfolding fund_testnet_account
  Keeps-fund_testnet_account testnet key = Keeps-ask _ _ refl
  Keeps-fund_testnet_account _ key = Keeps-throw _

pub IsQuiet-Submitted : (es : List Envelope) → IsQuiet (Submitted es)
IsQuiet-Submitted es = record { step = λ c t h p. submissions-quiet c t h ∙ p }
