-- ===== src/Api/Guards.antt =====
-- apps/api/src/modules/auth, jwt-auth.guard.ts and roles.guard.ts, and the routes behind them in
-- modules/payments/admin.controller.ts.
pub mod Admitted
use mix_match_onchain.Base.{
  String, Option, none, some, List, [], ◌∷◌, ◌==◌, any, or_default, is_truthy, strip_prefix,
  if◌then◌else◌,
}
use mix_match_onchain.Exec.{pure, throw, try_catch, ◌>>=◌, ◌>>◌}
use mix_match_onchain.Error.{unauthorized, forbidden}
use mix_match_onchain.Env.{Env}
use mix_match_onchain.Env.Tokens.{UserRole, JwtPayload, user, admin}
use mix_match_onchain.Api.Rows.{Transaction}
use mix_match_onchain.Api.Store.{App}
use mix_match_onchain.Api.Approval

-- What a request carries of its caller: the Authorization header and the parameter `token`, where
-- it is a text.
pub record Credential : Type 0 where
  pub header : Option String
  pub query_token : Option String

-- `request.userId`, `request.userRole`
pub record Identity : Type 0 where
  pub user_id : String
  pub user_role : Option UserRole

abbrev pub role_text : UserRole → String
role_text user = "USER"
role_text admin = "ADMIN"

-- `header?.startsWith('Bearer ') ? header.slice('Bearer '.length) : queryToken`
abbrev pub from_header : Option String → Option String → Option String
from_header none query_token = query_token
from_header (some token) query_token = some token

abbrev pub stripped : Option String → Option String
stripped none = none
stripped (some header) = strip_prefix header "Bearer "

abbrev pub token_of : Credential → Option String
token_of request = from_header (stripped request.header) request.query_token

module _ (env : Env) where
  -- `this.jwtService.verify(token)`
  unfoldable pub verify_token : String → App JwtPayload
  verify_token token w = (env.credentials.verify_token w.trace token, w)

  pub identify : JwtPayload → App Identity
  identify payload =
      if is_truthy payload.sub
      then pure (record { user_id = payload.sub; user_role = payload.role })
      else throw (unauthorized "Token is missing a subject claim")

  pub authenticate_token : Option String → App Identity
  unfolding identify
  authenticate_token none = throw (unauthorized "Missing or invalid Authorization header")
  authenticate_token (some token) =
      if is_truthy token
      then try_catch (do payload ← verify_token token; identify payload)
          (λ error. throw (unauthorized "Invalid or expired token"))
      else throw (unauthorized "Missing or invalid Authorization header")

  -- `JwtAuthGuard.canActivate`
  unfoldable pub jwt_auth_guard : Credential → App Identity
  unfolding authenticate_token
  jwt_auth_guard request = authenticate_token (token_of request)

-- `RolesGuard.canActivate`, for a route with the roles
unfoldable pub roles_guard : List UserRole → Identity → App Unit
roles_guard [] identity = pure tt
roles_guard (role ∷ roles) identity =
    if any (λ r. role_text r == role_text (or_default identity.user_role user)) (role ∷ roles)
    then pure tt
    else throw (forbidden "You do not have permission to perform this action")

module _ (env : Env) where
  -- `@UseGuards(JwtAuthGuard, RolesGuard) @Roles('ADMIN')`
  unfoldable pub admin_only : {A : Type 0} → App A → Credential → App A
  admin_only handler request = do
    identity ← jwt_auth_guard env request
    roles_guard (admin ∷ []) identity
    handler

  -- `GET admin/transactions/pending-signature`
  unfoldable pub list_pending_signatures : Credential → App (List Transaction)
  list_pending_signatures = admin_only (Approval.list_pending_signatures env)

  -- `POST admin/transactions/:id/approve`
  unfoldable pub approve : String → Credential → App Transaction
  approve id = admin_only (Approval.approve_pending_signature env id)

  -- `POST admin/transactions/:id/reject`
  unfoldable pub reject : String → Credential → App Transaction
  reject id = admin_only (Approval.reject_pending_signature env id)
