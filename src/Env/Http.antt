-- ===== src/Env/Http.antt =====
-- Requests over HTTP, as the program hands them to `fetch`, and what it reads of the answers.
use mix_match_onchain.Base.{ℕ, String, Bool, Option, List, ◌&&◌, leb}
use mix_match_onchain.Exec.{Result}
use mix_match_onchain.Error.{Error}

pub data Method : Type 0 where
  get post : Method

-- `body` has the fields of a form or of a JSON object.
pub record Request : Type 0 where
  pub method : Method
  pub url : String
  pub authorization : Option String
  pub body : List (String × String)

-- `text` is what reading the body settles to.
pub record Response : Type 0 where
  pub status : ℕ
  pub text : Result Error String

-- `response.ok`
abbrev pub is_ok : Response → Bool
is_ok response = leb 200 response.status && leb response.status 299
