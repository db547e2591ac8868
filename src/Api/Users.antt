-- ===== src/Api/Users.antt =====
-- apps/api/src/modules/users/users.repository.ts
use mix_match_onchain.Base.{
  ℕ, String, Bool, true, false, ◌||◌, Option, some, [], ◌∷◌, ◌++◌, ◌==◌, find, any,
}
use mix_match_onchain.Exec.{Result, ok, err}
use mix_match_onchain.Error.{Error}
use mix_match_onchain.Env.{Env}
use mix_match_onchain.Env.Tokens.{user}
use mix_match_onchain.Api.Rows.{User, World}
use mix_match_onchain.Api.Store.{App, statement, unique_violation}

-- The row of a new user: the role is the column's default.
abbrev pub user_row : String → String → String → ℕ → User
user_row email password_hash id now = record {
  id = id;
  email = email;
  password_hash = some password_hash;
  role = user;
  created_at = now;
  updated_at = now;
}

-- The row's id and its email are each unique in the table.
abbrev pub user_clash : User → User → Bool
user_clash row other = (other.id == row.id) || (other.email == row.email)

abbrev pub inserted : User → Bool → World → Result Error User × World
inserted row true w = (err unique_violation, w)
inserted row false w = (ok row, record w { users = w.users ++ (row ∷ []) })

abbrev pub has_email : String → User → Bool
has_email email row = row.email == email

module _ (env : Env) where
  -- `findByEmail`
  unfoldable pub find_by_email : String → App (Option User)
  find_by_email email = statement env (λ w. (ok (find (has_email email) w.users), w))

  -- `findById`
  unfoldable pub find_by_id : String → App (Option User)
  find_by_id id = statement env (λ w. (ok (find (λ row. row.id == id) w.users), w))

  -- `create`: a clash is thrown as the driver throws it.
  unfoldable pub create : String → String → App User
  create email password_hash = statement env (λ w.
      let row = user_row email password_hash (env.db_uuid w.trace) (env.db_now w.trace) in
      inserted row (any (user_clash row) w.users) w)
