-- ===== src/Api/Auth.antt =====
-- apps/api/src/modules/auth/auth.service.ts
pub mod Login
pub mod Token
use mix_match_onchain.Base.{String, Option, none, some, is_truthy, if◌then◌else◌}
use mix_match_onchain.Exec.{ok, pure, throw, ◌>>=◌}
use mix_match_onchain.Error.{conflict, unauthorized}
use mix_match_onchain.Env.{Env}
use mix_match_onchain.Env.Tokens.{UserRole, JwtPayload}
use mix_match_onchain.Api.Rows.{User}
use mix_match_onchain.Api.Store.{App}
use mix_match_onchain.Api.Users

-- `RegisterInput`, `LoginInput`
pub record AuthInput : Type 0 where
  pub email : String
  pub password : String

-- `AuthUser`
pub record AuthUser : Type 0 where
  pub id : String
  pub email : String
  pub role : UserRole
  pub created_at : String
  pub updated_at : String

pub record AuthTokenResponse : Type 0 where
  pub user : AuthUser
  pub access_token : String

module _ (env : Env) where
  -- `toAuthUser`
  abbrev pub to_auth_user : User → AuthUser
  to_auth_user user = record {
    id = user.id;
    email = user.email;
    role = user.role;
    created_at = env.credentials.iso user.created_at;
    updated_at = env.credentials.iso user.updated_at;
  }

  abbrev pub payload_of : User → JwtPayload
  payload_of user = record { sub = user.id; role = some user.role }

  -- `this.jwtService.sign(payload)`, which throws for options that the library refuses
  unfoldable pub sign_token : JwtPayload → App String
  sign_token payload w = (env.credentials.sign_token w.trace payload, w)

  -- `buildTokenResponse`
  unfoldable pub build_token_response : User → App AuthTokenResponse
  build_token_response user = do
    access_token ← sign_token (payload_of user)
    pure (record { user = to_auth_user user; access_token = access_token })

  -- `bcrypt.hash`
  unfoldable pub hash_password : String → App String
  hash_password password w = (env.credentials.hash_password w.trace password, w)

  pub register_new : AuthInput → Option User → App AuthTokenResponse
  register_new input (some existing) = throw (conflict "An account with this email already exists")
  register_new input none = do
    password_hash ← hash_password input.password
    user ← Users.create env input.email password_hash
    build_token_response user

  -- `register`
  unfoldable pub register : AuthInput → App AuthTokenResponse
  unfolding register_new
  register input = do existing ← Users.find_by_email env input.email; register_new input existing

  pub check_password : AuthInput → User → Option String → App AuthTokenResponse
  check_password input user none = throw (unauthorized "Invalid email or password")
  check_password input user (some password_hash) =
      if is_truthy password_hash
      then if env.credentials.compare_password input.password password_hash
        then build_token_response user
        else throw (unauthorized "Invalid email or password")
      else throw (unauthorized "Invalid email or password")

  pub login_as : AuthInput → Option User → App AuthTokenResponse
  unfolding check_password
  login_as input none = throw (unauthorized "Invalid email or password")
  login_as input (some user) = check_password input user user.password_hash

  -- `login`
  unfoldable pub login : AuthInput → App AuthTokenResponse
  unfolding login_as
  login input = do user ← Users.find_by_email env input.email; login_as input user

  abbrev pub map_user : Option User → Option AuthUser
  map_user none = none
  map_user (some user) = some (to_auth_user user)

  -- `getCurrentUser`
  unfoldable pub get_current_user : String → App (Option AuthUser)
  get_current_user user_id = do user ← Users.find_by_id env user_id; pure (map_user user)
