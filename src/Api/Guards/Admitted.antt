-- ===== src/Api/Guards/Admitted.antt =====
-- Who gets past the guards (apps/api/src/modules/auth, jwt-auth.guard.ts and roles.guard.ts).
use mix_match_onchain.Base.{
  String, true, Option, none, some, [], ◌∷◌, ◌≡◌, refl, ◌⊎◌, inl, inr, Bool-cases, is_truthy,
}
use mix_match_onchain.Exec.{Result, ok, err, pure, throw, try_catch, ◌>>=◌}
use mix_match_onchain.Error.{Error, unauthorized, forbidden}
use mix_match_onchain.Env.{Env}
use mix_match_onchain.Env.Tokens.{UserRole, JwtPayload, user, admin}
use mix_match_onchain.Api.Rows.{World}
use mix_match_onchain.Api.Store.{App}
use mix_match_onchain.Api.Guards
use mix_match_onchain.Api.Guards.{Credential, Identity, token_of}

-- A token of the request that verifies, with a subject and the payload's role.
pub record IsVerified (env : Env) (w : World) (request : Credential) (payload : JwtPayload)
    : Type 0 where
  pub token : String
  pub carried : token_of request ≡ some token
  pub verified : env.credentials.verify_token w.trace token ≡ ok payload
  pub subject : is_truthy payload.sub ≡ true

-- The action is the handler, for an administrator's token; or it throws and does nothing.
abbrev pub Admitted :
    Env → {A : Type 0} → App A → Credential → World → Result Error A × World → Type 0
Admitted env handler request w outcome =
    ((payload : JwtPayload) × IsVerified env w request payload
      × (payload.role ≡ some admin)
      × (outcome ≡ handler w))
    ⊎ ((e : Error) × (outcome ≡ (err e, w)))

abbrev pub identity_of : JwtPayload → Identity
identity_of payload = record { user_id = payload.sub; user_role = payload.role }

module _ (env : Env) (w : World) where
  abbrev pub Guarded : Option String → Result Error Identity × World → Type 0
  Guarded token outcome =
      ((t : String) × (payload : JwtPayload) × (token ≡ some t)
        × (env.credentials.verify_token w.trace t ≡ ok payload)
        × (is_truthy payload.sub ≡ true)
        × (outcome ≡ (ok (identity_of payload), w)))
      ⊎ ((e : Error) × (outcome ≡ (err e, w)))

  identify-Guarded :
      (t : String) (r : Result Error JwtPayload)
      → env.credentials.verify_token w.trace t ≡ r
      → Guarded (some t) (
          try_catch
            (do payload ← Guards.verify_token env t; Guards.identify env payload)
            (λ error. throw (unauthorized "Invalid or expired token"))
            w)
  unfolding Guards.jwt_auth_guard Guards.verify_token try_catch ◌>>=◌ throw pure
  identify-Guarded t (err e) v = inr (unauthorized "Invalid or expired token", simp v)
  identify-Guarded t (ok payload) v = elim (Bool-cases (is_truthy payload.sub)) [
    | inl s ↦ inl (t, payload, refl, v, s, simp (v, s))
    | inr s ↦ inr (unauthorized "Invalid or expired token", simp (v, s))
  ]

  pub token-Guarded :
      (token : Option String) → Guarded token (Guards.authenticate_token env token w)
  unfolding Guards.jwt_auth_guard throw
  token-Guarded none = inr (unauthorized "Missing or invalid Authorization header", refl)
  token-Guarded (some t) = elim (Bool-cases (is_truthy t)) [
    | inl s ↦ rw s (identify-Guarded t (env.credentials.verify_token w.trace t) refl)
    | inr s ↦ inr (unauthorized "Missing or invalid Authorization header", rw s refl)
  ]

  abbrev RoleTested : Option UserRole → Result Error Unit × World → Type 0
  RoleTested role outcome =
      ((role ≡ some admin) × (outcome ≡ (ok tt, w))) ⊎ ((e : Error) × (outcome ≡ (err e, w)))

  roles-RoleTested :
      (user_id : String) (role : Option UserRole)
      → RoleTested role
          (Guards.roles_guard (admin ∷ []) (record { user_id = user_id; user_role = role }) w)
  unfolding Guards.roles_guard throw pure
  roles-RoleTested user_id none =
      inr (forbidden "You do not have permission to perform this action", refl)
  roles-RoleTested user_id (some user) =
      inr (forbidden "You do not have permission to perform this action", refl)
  roles-RoleTested user_id (some admin) = inl (refl, refl)

  -- A route for administrators runs its handler only on a request whose token verifies, has a
  -- subject and carries the role ADMIN; any other request is refused and changes nothing.
  pub admin_only-Admitted :
      {A : Type 0} (handler : App A) (request : Credential)
      → Admitted env handler request w (Guards.admin_only env handler request w)
  unfolding Guards.admin_only Guards.jwt_auth_guard ◌>>=◌
  admin_only-Admitted handler request = elim (token-Guarded (token_of request)) [
    | inr (e, stop) ↦ inr (e, rw stop refl)
    | inl (t, payload, carried, verified, subject, go) ↦
        elim (roles-RoleTested payload.sub payload.role) [
          | inr (e, stop) ↦ inr (e, rw go (rw stop refl))
          | inl (role, pass) ↦ inl (
            payload,
            record { token = t; carried = carried; verified = verified; subject = subject },
            role,
            rw go (rw pass refl),
          )
        ]
  ]
