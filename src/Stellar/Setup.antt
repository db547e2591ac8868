-- ===== src/Stellar/Setup.antt =====
-- What `configureMultisig` (packages/stellar/src/multisig.ts) hands to Horizon moves no funds.
use mix_match_onchain.Base.{
  ℕ, String, Bool, true, false, Option, List, ◌∷◌, ◌++◌, ◌≡◌, refl, ap, ◌∙◌, any, All,
}
use mix_match_onchain.Exec.{Result, ok, err, pure, lift, ◌>>=◌}
use mix_match_onchain.Exec.Rules.{Keeps, Keeps-bind, Ensures, Ensures-bind, Ensures-Keeps}
use mix_match_onchain.Error.{Error}
use mix_match_onchain.Env.{Env}
use mix_match_onchain.Env.Sdk.{
  Operation, payment, path_payment_strict_send, path_payment_strict_receive, Envelope,
}
use mix_match_onchain.Env.Calls.{Trace}
use mix_match_onchain.Stellar.Net.{ask}
use mix_match_onchain.Stellar.Wallet.{Wallet, Signer, keypair, vault, sign, sign_with}
use mix_match_onchain.Stellar.Payment.{submit_transaction}
use mix_match_onchain.Stellar.Multisig.{configure_multisig}
use mix_match_onchain.Stellar.Quiet.{
  submissions, submissions-quiet, IsQuiet, Keeps-ask, Keeps-classified, Keeps-resolve_fee,
}

abbrev pub moves_funds : Operation → Bool
moves_funds (payment destination asset amount) = true
moves_funds (path_payment_strict_send a b c d e f) = true
moves_funds (path_payment_strict_receive a b c d e f) = true
moves_funds _ = false

abbrev pub MovesNothing : Envelope → Type 0
MovesNothing e = any moves_funds e.operations ≡ false

-- The submissions are `base` and, since, envelopes that move no funds.
pub record OnlySetup (base : List Envelope) (t : Trace) : Type 0 where
  pub since : List Envelope
  pub submitted : submissions t ≡ since ++ base
  pub harmless : All MovesNothing since

-- Building an envelope and adding a signature leave its operations alone.
pub record KeepsOperations (env : Env) : Type 0 where
  pub built : (e e' : Envelope) → env.build e ≡ ok e' → e'.operations ≡ e.operations
  pub signed :
      (e e' : Envelope) (key signature : String)
      → env.add_signature e key signature ≡ ok e'
      → e'.operations ≡ e.operations

pub IsQuiet-OnlySetup : (base : List Envelope) → IsQuiet (OnlySetup base)
IsQuiet-OnlySetup base = record {
  step = λ c t h p. record {
    since = p.since;
    submitted = submissions-quiet c t h ∙ p.submitted;
    harmless = p.harmless;
  };
}

module _ (env : Env) (k : KeepsOperations env) (base : List Envelope) where
  -- An envelope that moves no funds, or an error.
  abbrev Harmless : Result Error Envelope → Trace → Type 0
  Harmless (ok e) t = OnlySetup base t × MovesNothing e
  Harmless (err e) t = OnlySetup base t

  Keeps-submit : (e : Envelope) → MovesNothing e → Keeps (OnlySetup base) (submit_transaction env e)
  unfolding submit_transaction ask
  Keeps-submit e m = record {
    at = λ t p. record {
      since = e ∷ p.since;
      submitted = ap (λ es. e ∷ es) p.submitted;
      harmless = (m, p.harmless);
    };
  }

  Ensures-lift :
      (r : Result Error Envelope)
      → ((e : Envelope) → r ≡ ok e → MovesNothing e)
      → Ensures (OnlySetup base) (lift r) Harmless
  unfolding lift
  Ensures-lift (ok e) h = record { at = λ t p. (p, h e refl) }
  Ensures-lift (err e) h = record { at = λ t p. p }

  same_operations :
      (e e' : Envelope) → e'.operations ≡ e.operations → MovesNothing e → MovesNothing e'
  same_operations e e' o m = ap (any moves_funds) o ∙ m

  Ensures-sign_with :
      (signer : Signer) (key : String) (e : Envelope)
      → MovesNothing e
      → Ensures (OnlySetup base) (sign_with env signer key e) Harmless
  unfolding sign pure
  Ensures-sign_with (keypair secret) key e m = record { at = λ t p. (p, m) }
  Ensures-sign_with (vault name) key e m =
      Ensures-bind (λ _ t. OnlySetup base t) _ _
        (Ensures-Keeps _ (Keeps-ask (IsQuiet-OnlySetup base) env _ _ refl))
        (λ s. Ensures-lift _ (λ e' a. same_operations e e' (k.signed e e' key s a) m)) (λ x t p. p)

  Keeps-sign_and_submit :
      (wallet : Wallet) (e : Envelope)
      → MovesNothing e
      → Keeps (OnlySetup base) (sign env wallet e >>= submit_transaction env)
  unfolding sign
  Keeps-sign_and_submit wallet e m = record {
    at =
        (Ensures-bind {Q = λ _ t. OnlySetup base t} Harmless _ _
          (Ensures-sign_with wallet.signer wallet.public_key e m)
          (λ signed. record { at = λ t p. (Keeps-submit signed p.1).at t p.0 }) (λ x t p. p)).at;
  }

  Keeps-built :
      (wallet : Wallet) (e : Envelope)
      → MovesNothing e
      → Keeps
          (OnlySetup base)
          (lift (env.build e) >>= (λ b. sign env wallet b >>= submit_transaction env))
  Keeps-built wallet e m = record {
    at =
        (Ensures-bind {Q = λ _ t. OnlySetup base t} Harmless _ _
          (Ensures-lift (env.build e) (λ e' b. same_operations e e' (k.built e e' b) m))
          (λ built. record { at = λ t p. (Keeps-sign_and_submit wallet built p.1).at t p.0 })
          (λ x t p. p)).at;
  }

  pub Keeps-configure_multisig :
      (wallet : Wallet) (admin : String) (timeout : Option ℕ)
      → Keeps (OnlySetup base) (configure_multisig env wallet admin timeout)
  unfolding configure_multisig
  Keeps-configure_multisig wallet admin timeout = Keeps-classified (IsQuiet-OnlySetup base) env _ (
      Keeps-bind _ _ (Keeps-ask (IsQuiet-OnlySetup base) env _ _ refl) (λ account.
        Keeps-bind _ _ (Keeps-resolve_fee (IsQuiet-OnlySetup base) env _)
          (λ fee. Keeps-built wallet _ refl)))
