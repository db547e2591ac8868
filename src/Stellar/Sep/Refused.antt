-- ===== src/Stellar/Sep/Refused.antt =====
-- Challenges that packages/stellar/src/sep/sep10.ts refuses to sign.
use mix_match_onchain.Base.{Bool, true, false, not, ◌&&◌, ◌≡◌, refl, ◌∙◌, ◌==◌, if◌then◌else◌}
use mix_match_onchain.Exec.{Result, ok, err, throw, lift, pure, ◌>>=◌, ◌>>◌}
use mix_match_onchain.Error.{Error}
use mix_match_onchain.Env.{Env}
use mix_match_onchain.Env.Calls.{Trace}
use mix_match_onchain.Env.Web.{Challenge}
use mix_match_onchain.Stellar.Net.{Net}
use mix_match_onchain.Stellar.Sep.Auth.{
  Sep10AuthParams, fetch_challenge, signed_by, check_challenge, authenticate_sep10,
}

bind-ok :
    {A B : Type 0} (m : Net A) (f : A → Net B) (t : Trace) (a : A)
    → (m t).0 ≡ ok a
    → (m >>= f) t ≡ f a (m t).1
unfolding ◌>>=◌
bind-ok m f t a e = rw e refl

bind-err :
    {A B : Type 0} (m : Net A) (f : A → Net B) (t t' : Trace) (e : Error)
    → m t ≡ (err e, t')
    → (m >>= f) t ≡ (err e, t')
unfolding ◌>>=◌
bind-err m f t t' e h = rw h refl

-- Two tests with a step between them, one of which fails.
either_refused :
    (b c : Bool) (r : Result Error Unit) (e e' : Error) (t : Trace)
    → (b && c) ≡ false
    → (x : Error) × ((if not b then throw e else lift r >> (if not c then throw e' else pure tt)) t
        ≡ (err x, t))
unfolding throw lift pure ◌>>=◌
either_refused false c r e e' t h = (e, refl)
either_refused true false (ok u) e e' t h = (e', refl)
either_refused true c (err x) e e' t h = (x, refl)
either_refused true true r e e' t h = cc

module _ (env : Env) (params : Sep10AuthParams) (challenge : Challenge) where
  -- The challenge has the sequence number 0 and is signed by the anchor's key.
  abbrev pub is_genuine : Bool
  is_genuine = (challenge.sequence == "0") && signed_by env params.server_signing_key challenge

  check-refused :
      (t : Trace)
      → is_genuine ≡ false
      → (e : Error) × (check_challenge env params challenge t ≡ (err e, t))
  unfolding check_challenge
  check-refused t h =
      either_refused (challenge.sequence == "0") (signed_by env params.server_signing_key challenge)
        (env.web.check_public_key params.server_signing_key) _ _ t h

  -- A challenge that was fetched and is not genuine: the authentication fails, and the fetch of the
  -- challenge is all that it did: nothing is signed and no token is asked for.
  pub authenticate_sep10-refused :
      (t : Trace)
      → (fetch_challenge env params t).0 ≡ ok challenge
      → is_genuine ≡ false
      → (e : Error) × (authenticate_sep10 env params t ≡ (err e, (fetch_challenge env params t).1))
  unfolding authenticate_sep10
  authenticate_sep10-refused t fetched h =
      let (e, stop) = check-refused (fetch_challenge env params t).1 h in
      (
        e,
        bind-ok (fetch_challenge env params) _ t challenge fetched
            ∙ bind-err (check_challenge env params challenge) _ (fetch_challenge env params t).1
                (fetch_challenge env params t).1 e stop,
      )
