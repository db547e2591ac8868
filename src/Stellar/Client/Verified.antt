-- ===== src/Stellar/Client/Verified.antt =====
-- What the check of a network's endpoints ensures (packages/stellar/src/client.ts, `verifyNetwork`).
use mix_match_onchain.Base.{
  ◌∙◌, ap, equal_text, ℕ, zero, suc, ◌+◌, ◌*◌, ◌≤◌, ◌≡◌, refl, String, Bool-cases, inl, inr, [],
  ◌∷◌, ◌==◌, arith, or_default,
}
use mix_match_onchain.Exec.{Result, ok, err, ◌>>=◌}
use mix_match_onchain.Exec.Rules.{
  Ensures, Ensures-bind, Ensures-try, Ensures-throw, Ensures-pure, Ensures-weaken,
}
use mix_match_onchain.Error.{Error}
use mix_match_onchain.Env.{Env}
use mix_match_onchain.Env.Calls.{Call, Trace, horizon_root, rpc_network}
use mix_match_onchain.Stellar.Net.{Net, ask}
use mix_match_onchain.Stellar.Client
use mix_match_onchain.Stellar.Client.{
  check_from, pause, retry_delay_ms, default_retries, verify_network,
}

-- An answer of the endpoint, at some time.
abbrev pub Answered : (Trace → Result Error String) → String → Type 0
Answered endpoint text = (t : Trace) × (endpoint t ≡ ok text)

abbrev Any : Trace → Type 0
Any t = Unit

abbrev Asked : (Trace → Result Error String) → Result Error String → Trace → Type 0
Asked endpoint (ok text) t = Answered endpoint text
Asked endpoint (err e) t = Unit

-- Both endpoints answered the client's passphrase.
abbrev pub Verified : Env → Client.Client → Result Error Unit → Type 0
Verified env client (ok u) =
    Answered env.horizon_root client.network_passphrase
    × Answered env.rpc_network client.network_passphrase
Verified env client (err e) = Unit

Ensures-ask :
    (call : Call) (endpoint : Trace → Result Error String)
    → Ensures Any (ask call endpoint) (Asked endpoint)
unfolding ask
Ensures-ask call endpoint = record { at = λ t h. asked (endpoint t) t refl }
  where
    asked : (r : Result Error String) (t : Trace) → endpoint t ≡ r → Asked endpoint r (call ∷ t)
    asked (ok text) t e = (t, e)
    asked (err x) t e = tt

Ensures-check :
    (left attempt : ℕ) (fn : Net String) (endpoint : Trace → Result Error String)
    → Ensures Any fn (Asked endpoint)
    → Ensures Any (check_from left attempt fn) (Asked endpoint)
unfolding check_from
Ensures-check zero attempt fn endpoint h =
    Ensures-try (Asked endpoint) _ _ h (λ e. Ensures-throw _ (λ t p. tt)) (λ a t p. p)
Ensures-check (suc left) attempt fn endpoint h =
    Ensures-try (Asked endpoint) _ _ h
      (λ e.
        Ensures-bind (λ _ _. Unit) _ _ (record { at = λ t p. tt })
          (λ _. Ensures-check left (suc attempt) fn endpoint h) (λ e' t p. tt))
      (λ a t p. p)

-- The two endpoints' calls so far.
abbrev pub requests : Trace → ℕ
requests [] = 0
requests (horizon_root ∷ t) = suc (requests t)
requests (rpc_network ∷ t) = suc (requests t)
requests (_ ∷ t) = requests t

abbrev AtMost : ℕ → Trace → Type 0
AtMost n t = requests t ≤ n

Ensures-pause : (n ms : ℕ) → Ensures (AtMost n) (pause ms) (λ _ t. AtMost n t)
unfolding pause ask
Ensures-pause n ms = record { at = λ t h. h }

-- The loop calls at most once for each attempt.
AtMost-check :
    (left attempt n : ℕ) (fn : Net String)
    → ((m : ℕ) → Ensures (AtMost m) fn (λ _ t. AtMost (suc m) t))
    → Ensures (AtMost n) (check_from left attempt fn) (λ _ t. AtMost (n + suc left) t)
unfolding check_from
AtMost-check zero attempt n fn h =
    Ensures-try (λ _ t. AtMost (suc n) t) _ _ (h n) (λ e. Ensures-throw _ (λ t p. omega (arith, p)))
      (λ a t p. omega (arith, p))
AtMost-check (suc left) attempt n fn h =
    Ensures-try (λ _ t. AtMost (suc n) t) _ _ (h n)
      (λ e.
        Ensures-bind (λ _ t. AtMost (suc n) t) _ _ (Ensures-pause (suc n) _)
          (λ _. record {
            at = λ t p. omega (arith, (AtMost-check left (suc attempt) (suc n) fn h).at t p);
          })
          (λ e' t p. omega (arith, p)))
      (λ a t p. omega (arith, p))

module _ (env : Env) (client : Client.Client) where
  abbrev pub attempts : ℕ
  attempts = suc (or_default client.config.retries default_retries)

  -- The first endpoint's answer is the passphrase, or an error was thrown.
  abbrev Matched : (Trace → Result Error String) → Result Error Unit → Trace → Type 0
  Matched endpoint (ok u) t = Answered endpoint client.network_passphrase
  Matched endpoint (err e) t = Unit

  Ensures-compare :
      (name actual : String) (endpoint : Trace → Result Error String)
      → Ensures
          (Asked endpoint (ok actual))
          (Client.compare_passphrase env name client.network_passphrase actual)
          (Matched endpoint)
  Ensures-compare name actual endpoint = elim (Bool-cases (actual == client.network_passphrase)) [
    | inl t ↦ rw t (
        Ensures-pure tt
          (λ s p. (p.0, p.1 ∙ ap (λ x. ok x) (equal_text actual client.network_passphrase t))))
    | inr f ↦ rw f (Ensures-throw _ (λ s p. tt))
  ]

  Ensures-second :
      (u : Answered env.horizon_root client.network_passphrase)
      → Ensures Any
          (check_from (or_default client.config.retries default_retries) 1 (Client.rpc_network env)
            >>= Client.compare_passphrase env "rpc" client.network_passphrase)
          (λ r _. Verified env client r)
  Ensures-second u =
      Ensures-bind (Asked env.rpc_network) _ _
        (Ensures-check _ 1 _ env.rpc_network (Ensures-ask rpc_network env.rpc_network))
        (λ network.
          Ensures-weaken {R = Matched env.rpc_network} _
            (Ensures-compare "rpc" network env.rpc_network) (with_first u))
        (λ e t p. tt)
    where
      with_first :
          Answered env.horizon_root client.network_passphrase
          → (r : Result Error Unit) (t : Trace) → Matched env.rpc_network r t
          → Verified env client r
      with_first u (ok x) t m = (u, m)
      with_first u (err e) t m = tt

  -- A check that succeeds has heard the client's passphrase from both endpoints.
  pub verify_network-Verified : (t : Trace) → Verified env client (verify_network env client t).0
  unfolding verify_network
  verify_network-Verified t =
      (Ensures-bind {P = Any} {Q = λ r _. Verified env client r} (Asked env.horizon_root) _ _
          (Ensures-check _ 1 _ env.horizon_root (Ensures-ask horizon_root env.horizon_root))
          (λ root.
            Ensures-bind (Matched env.horizon_root) _ _
              (Ensures-compare "horizon" root env.horizon_root)
              (λ _. record { at = λ s u. (Ensures-second u).at s tt }) (λ e s p. tt))
          (λ e s p. tt)).at
        t tt

  AtMost-compare :
      (n : ℕ) (name actual : String)
      → Ensures
          (AtMost n)
          (Client.compare_passphrase env name client.network_passphrase actual)
          (λ _ t. AtMost n t)
  AtMost-compare n name actual = elim (Bool-cases (actual == client.network_passphrase)) [
    | inl t ↦ rw t (Ensures-pure tt (λ s p. p))
    | inr f ↦ rw f (Ensures-throw _ (λ s p. p))
  ]

  AtMost-ask :
      (call : Call) (endpoint : Trace → Result Error String)
      → ((t : Trace) → requests (call ∷ t) ≤ suc (requests t))
      → (n : ℕ) → Ensures (AtMost n) (ask call endpoint) (λ _ t. AtMost (suc n) t)
  unfolding ask
  AtMost-ask call endpoint h n = record { at = λ t p. omega (arith, h t, p) }

  -- A check asks each endpoint at most once for each attempt, the first one and the retries, and
  -- so ends.
  pub verify_network-requests :
      (t : Trace) → requests (verify_network env client t).1 ≤ requests t + 2 * attempts
  unfolding verify_network
  verify_network-requests t =
      (Ensures-bind {P = AtMost (requests t)} {Q = λ _ t'. AtMost (requests t + 2 * attempts) t'}
          (λ _ t'. AtMost (requests t + attempts) t') _ _
          (AtMost-check _ 1 (requests t) _
            (AtMost-ask horizon_root env.horizon_root (λ t'. omega arith)))
          (λ root.
            Ensures-bind (λ _ t'. AtMost (requests t + attempts) t') _ _
              (AtMost-compare (requests t + attempts) "horizon" root)
              (λ _.
                Ensures-bind (λ _ t'. AtMost (requests t + attempts + attempts) t') _ _
                  (AtMost-check _ 1 (requests t + attempts) _
                    (AtMost-ask rpc_network env.rpc_network (λ t'. omega arith)))
                  (λ network.
                    Ensures-weaken {R = λ _ t'. AtMost (requests t + attempts + attempts) t'} _
                      (AtMost-compare (requests t + attempts + attempts) "rpc" network)
                      (λ r s p. omega (arith, p)))
                  (λ e s p. omega (arith, p)))
              (λ e s p. omega (arith, p)))
          (λ e s p. omega (arith, p))).at
        t (omega arith)
