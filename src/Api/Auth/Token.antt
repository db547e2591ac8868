-- ===== src/Api/Auth/Token.antt =====
-- The token of a login or a registration (apps/api/src/modules/auth, auth.service.ts), sent back to
-- the guard (jwt-auth.guard.ts).
use text.Mathlib.TextLemmas.{nil-append, cons-append}
use Prim.Native.String.{String}
use Prim.Native.Char.{code}
use mix_match_onchain.Base.{
  ℕ, true, none, some, ◌≡◌, refl, sym, ap, ◌∙◌, is_truthy, concat, strip_prefix, same_code, arith,
}
use mix_match_onchain.Exec.{ok, pure, try_catch, ◌>>=◌}
use mix_match_onchain.Env.{Env}
use mix_match_onchain.Env.Calls.{Trace}
use mix_match_onchain.Env.Tokens.{JwtPayload}
use mix_match_onchain.Api.Rows.{User, World}
use mix_match_onchain.Api.Auth
use mix_match_onchain.Api.Auth.{AuthInput, AuthTokenResponse, payload_of}
use mix_match_onchain.Api.Auth.Login.{IsIssued, login-LoggedIn}
use mix_match_onchain.Api.Guards
use mix_match_onchain.Api.Guards.{Credential, Identity, token_of}

same_code_self : (n : ℕ) → same_code n n ≡ true
same_code_self n = ground arith

strip_prefix-concat : (prefix text : String) → strip_prefix (concat prefix text) prefix ≡ some text
strip_prefix-concat String.[] text = rw nil-append refl
strip_prefix-concat (String.◌∷◌ c prefix) text =
    rw cons-append (rw (same_code_self (code c)) (strip_prefix-concat prefix text))

-- The header of a request with a token.
abbrev pub with_token : String → Credential
with_token token = record { header = some (concat "Bearer " token); query_token = none }

-- What the JWT library does: a token that it signed has a text, and what it verifies to, at whatever
-- time it still does, is the payload that it was signed for.
pub record IsSound (env : Env) : Type 0 where
  pub solid :
      (t : Trace) (payload : JwtPayload) (token : String)
      → env.credentials.sign_token t payload ≡ ok token
      → is_truthy token ≡ true
  pub reads :
      (t t' : Trace) (payload payload' : JwtPayload) (token : String)
      → env.credentials.sign_token t payload ≡ ok token
      → env.credentials.verify_token t' token ≡ ok payload'
      → payload' ≡ payload

module _ (env : Env) (w : World) (sound : IsSound env) where
  signed-guard :
      (t : Trace) (payload payload' : JwtPayload) (token : String)
      → env.credentials.sign_token t payload ≡ ok token
      → env.credentials.verify_token w.trace token ≡ ok payload'
      → is_truthy payload.sub ≡ true
      → Guards.jwt_auth_guard env (with_token token) w
        ≡ (ok (record { user_id = payload.sub; user_role = payload.role }), w)
  unfolding Guards.jwt_auth_guard Guards.verify_token try_catch ◌>>=◌ pure
  signed-guard t payload payload' token signed verified h =
      let read =
        verified ∙ ap (λ p. ok p) (sound.reads t w.trace payload payload' token signed verified) in
      rw (strip_prefix-concat "Bearer " token)
        (rw (sound.solid t payload token signed) (simp (read, h)))

  issued-guard :
      (u : User) (response : AuthTokenResponse) (payload : JwtPayload)
      → IsIssued env u response
      → env.credentials.verify_token w.trace response.access_token ≡ ok payload
      → is_truthy u.id ≡ true
      → Guards.jwt_auth_guard env (with_token response.access_token) w
        ≡ (ok (record { user_id = u.id; user_role = some u.role }), w)
  issued-guard u response payload i v h =
      signed-guard i.signed_at (payload_of env u) payload response.access_token i.signed v h

  abbrev shown_identity : AuthTokenResponse → Identity
  shown_identity response = record {
    user_id = response.user.id;
    user_role = some response.user.role;
  }

  -- The token of a login, sent back in the Authorization header at a time when it verifies, is taken:
  -- the request has the id and the role of the user that the login answered with. Here a signed
  -- token has a text and verifies to nothing but its payload, and the user's id is not empty.
  pub login-guard :
      (w0 : World) (input : AuthInput) (response : AuthTokenResponse) (payload : JwtPayload)
      → (Auth.login env input w0).0 ≡ ok response
      → env.credentials.verify_token w.trace response.access_token ≡ ok payload
      → is_truthy response.user.id ≡ true
      → Guards.jwt_auth_guard env (with_token response.access_token) w
        ≡ (ok (shown_identity response), w)
  login-guard w0 input response payload e v h =
      let known = (rw e at (login-LoggedIn env w0 input)).1 in
      let shown = known.issued.shown in
      issued-guard known.user response payload known.issued v
        (sym (ap (λ u. is_truthy u.id) shown) ∙ h)
      ∙ ap (λ u. (ok (record { user_id = u.id; user_role = some u.role }), w)) (sym shown)
