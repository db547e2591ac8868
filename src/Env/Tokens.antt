-- ===== src/Env/Tokens.antt =====
-- Passwords and tokens: bcrypt and the JWT library, which answer by the history that the clock and
-- the randomness come from.
use mix_match_onchain.Base.{ℕ, String, Bool, Option}
use mix_match_onchain.Exec.{Result}
use mix_match_onchain.Error.{Error}
use mix_match_onchain.Env.Calls.{Trace}

-- `UserRole` (packages/shared/src/types/auth.ts)
pub data UserRole : Type 0 where
  user admin : UserRole

-- `JwtPayload` (apps/api/src/modules/auth/jwt-auth.guard.ts)
pub record JwtPayload : Type 0 where
  pub sub : String
  pub role : Option UserRole

pub record Credentials : Type 0 where
  pub hash_password : Trace → String → Result Error String
  pub compare_password : String → String → Bool
  pub sign_token : Trace → JwtPayload → Result Error String
  pub verify_token : Trace → String → Result Error JwtPayload
  -- `toISOString()` of a date
  pub iso : ℕ → String
