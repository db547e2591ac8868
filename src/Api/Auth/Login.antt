-- ===== src/Api/Auth/Login.antt =====
-- What a login and a registration ensure (apps/api/src/modules/auth/auth.service.ts), and that the
-- guard takes the token they issue.
use mix_match_onchain.Base.{
  String, Bool, true, false, Option, none, some, [], ◌∷◌, ◌++◌, ◌≡◌, refl, sym, ap, find, is_truthy,
  any, ◌⊎◌, inl, inr,
}
use mix_match_onchain.Exec.{Result, ok, err}
use mix_match_onchain.Exec.Rules.{
  Ensures, Ensures-bind, Ensures-if, Ensures-pure, Ensures-throw, Ensures-weaken,
}
use mix_match_onchain.Error.{Error}
use mix_match_onchain.Env.{Env}
use mix_match_onchain.Env.Calls.{Trace}
use mix_match_onchain.Env.Tokens.{user}
use mix_match_onchain.Api.Rows.{User, World}
use mix_match_onchain.Api.Store.Rules.{OnTables, Ensures-statement}
use mix_match_onchain.Api.Access.{SameTables, OnTables-SameTables}
use mix_match_onchain.Api.Users
use mix_match_onchain.Api.Users.{has_email, user_row, user_clash, inserted}
use mix_match_onchain.Api.Auth
use mix_match_onchain.Api.Auth.{AuthInput, AuthTokenResponse, to_auth_user, payload_of}

-- The answer is the user's, with a token signed for the user's id and role.
pub record IsIssued (env : Env) (user : User) (response : AuthTokenResponse) : Type 0 where
  pub shown : response.user ≡ to_auth_user env user
  pub signed_at : Trace
  pub signed : env.credentials.sign_token signed_at (payload_of env user) ≡ ok response.access_token

-- The answer for the user, or the library's refusal to sign.
abbrev pub Issued : Env → User → Result Error AuthTokenResponse → World → Type 0
Issued env u (ok response) w = IsIssued env u response
Issued env u (err e) w = env.credentials.sign_token w.trace (payload_of env u) ≡ err e

Ensures-issue :
    (env : Env) (P : World → Type 0) (u : User)
    → Ensures P (Auth.build_token_response env u) (λ r w. P w × Issued env u r w)
unfolding Auth.build_token_response Auth.sign_token
Ensures-issue env P u =
    Ensures-bind (λ r w. P w × (env.credentials.sign_token w.trace (payload_of env u) ≡ r)) _ _
      (record { at = λ w p. (p, refl) })
      (λ token.
        Ensures-pure _ (λ w h. (h.0, record { shown = refl; signed_at = w.trace; signed = h.1 })))
      (λ e w h. h)

-- The user with the email, whose stored hash the password matches.
pub record IsKnown (env : Env) (w : World) (input : AuthInput) (response : AuthTokenResponse)
    : Type 0 where
  pub user : User
  pub found : find (has_email input.email) w.users ≡ some user
  pub hash : String
  pub stored : user.password_hash ≡ some hash
  pub matches : env.credentials.compare_password input.password hash ≡ true
  pub issued : IsIssued env user response

abbrev pub LoggedIn : Env → World → AuthInput → Result Error AuthTokenResponse → World → Type 0
LoggedIn env w0 input (ok response) w = SameTables w0 w × IsKnown env w0 input response
LoggedIn env w0 input (err e) w = SameTables w0 w

module _ (env : Env) (w0 : World) (input : AuthInput) where
  abbrev Read : Result Error (Option User) → World → Type 0
  Read (ok found) w = SameTables w0 w × (find (has_email input.email) w0.users ≡ found)
  Read (err e) w = SameTables w0 w

  abbrev Found : User → World → Type 0
  Found u w = SameTables w0 w × (find (has_email input.email) w0.users ≡ some u)

  Ensures-find : Ensures (SameTables w0) (Users.find_by_email env input.email) Read
  unfolding Users.find_by_email
  Ensures-find =
      Ensures-statement (OnTables-SameTables w0) env Read _
        (λ w h. (h, ap (find (has_email input.email)) (sym h.users))) (λ e w h. h)

  Ensures-check :
      (u : User) (stored : Option String)
      → u.password_hash ≡ stored
      → Ensures (Found u) (Auth.check_password env input u stored) (LoggedIn env w0 input)
  unfolding Auth.login Auth.build_token_response
  Ensures-check u none e = Ensures-throw _ (λ w h. h.0)
  Ensures-check u (some hash) e =
      Ensures-if (is_truthy hash) _ _
        (λ _.
          Ensures-if (env.credentials.compare_password input.password hash) _ _
            (λ m. Ensures-weaken _ (Ensures-issue env (Found u) u) (known hash e m))
            (λ _. Ensures-throw _ (λ w h. h.0)))
        (λ _. Ensures-throw _ (λ w h. h.0))
    where
      known :
          (hash : String)
          → u.password_hash ≡ some hash
          → env.credentials.compare_password input.password hash ≡ true
          → (r : Result Error AuthTokenResponse) (w : World) → Found u w × Issued env u r w
          → LoggedIn env w0 input r w
      known hash e m (ok response) w h = (
        h.0.0,
        record { user = u; found = h.0.1; hash = hash; stored = e; matches = m; issued = h.1 },
      )
      known hash e m (err x) w h = h.0.0

  Ensures-login_as :
      (found : Option User)
      → Ensures (Read (ok found)) (Auth.login_as env input found) (LoggedIn env w0 input)
  unfolding Auth.login
  Ensures-login_as none = Ensures-throw _ (λ w h. h.0)
  Ensures-login_as (some u) = Ensures-check u u.password_hash refl

-- A login changes no table; it succeeds only for the user with the email, when the stored hash takes
-- the password, and answers with that user and a token signed for the user's id and role.
pub login-LoggedIn :
    (env : Env) (w : World) (input : AuthInput)
    → LoggedIn env w input (Auth.login env input w).0 (Auth.login env input w).1
unfolding Auth.login
login-LoggedIn env w input =
    (Ensures-bind (Read env w input) _ _ (Ensures-find env w input) (Ensures-login_as env w input)
        (λ e w' h. h)).at
      w
      (record {
        accounts = refl;
        transactions = refl;
        escrows = refl;
        anchors = refl;
        users = refl;
      })

-- A new row of the role USER at the end of the table, for an email that no user had.
pub record IsAdded (w0 : World) (input : AuthInput) (row : User) (w : World) : Type 0 where
  pub added : w.users ≡ w0.users ++ row ∷ []
  pub email : row.email ≡ input.email
  pub role : row.role ≡ user
  pub unknown : find (has_email input.email) w0.users ≡ none

abbrev pub Registered : Env → World → AuthInput → Result Error AuthTokenResponse → World → Type 0
Registered env w0 input (ok response) w =
    (row : User) × IsAdded w0 input row w × IsIssued env row response
Registered env w0 input (err e) w =
    (w.users ≡ w0.users)
    ⊎ ((row : User) × IsAdded w0 input row w
        × (env.credentials.sign_token w.trace (payload_of env row) ≡ err e))

module _ (env : Env) (w0 : World) (input : AuthInput) where
  abbrev Users-same : World → Type 0
  Users-same w = w.users ≡ w0.users

  OnTables-Users : OnTables Users-same
  OnTables-Users = record { shift = λ w t h. h }

  abbrev Looked : Result Error (Option User) → World → Type 0
  Looked (ok found) w = Users-same w × (find (has_email input.email) w0.users ≡ found)
  Looked (err e) w = Users-same w

  abbrev New : World → Type 0
  New w = Users-same w × (find (has_email input.email) w0.users ≡ none)

  OnTables-New : OnTables New
  OnTables-New = record { shift = λ w t h. h }

  -- The row that `create` adds.
  abbrev Created : Result Error User → World → Type 0
  Created (ok row) w = IsAdded w0 input row w
  Created (err e) w = Users-same w

  Created-inserted :
      (row : User) (clash : Bool) (w : World)
      → row.email ≡ input.email
      → row.role ≡ user
      → New w
      → Created (inserted row clash w).0 (inserted row clash w).1
  Created-inserted row true w e r h = h.0
  Created-inserted row false w e r h = record {
    added = ap (λ l. l ++ row ∷ []) h.0;
    email = e;
    role = r;
    unknown = h.1;
  }

  Ensures-create : (hash : String) → Ensures New (Users.create env input.email hash) Created
  unfolding Users.create
  Ensures-create hash =
      Ensures-statement OnTables-New env Created _
        (λ w h.
          let row = user_row input.email hash (env.db_uuid w.trace) (env.db_now w.trace) in
          Created-inserted row (any (user_clash row) w.users) w refl refl h)
        (λ e w h. h.0)

  Ensures-hash : (password : String) → Ensures New (Auth.hash_password env password) (λ _ w. New w)
  unfolding Auth.hash_password
  Ensures-hash password = record { at = λ w h. h }

  registered :
      (row : User) (r : Result Error AuthTokenResponse) (w : World)
      → IsAdded w0 input row w × Issued env row r w
      → Registered env w0 input r w
  registered row (ok response) w h = (row, h.0, h.1)
  registered row (err e) w h = inr (row, h.0, h.1)

  Ensures-register_new :
      (found : Option User)
      → Ensures (Looked (ok found)) (Auth.register_new env input found) (Registered env w0 input)
  unfolding Auth.register
  Ensures-register_new (some existing) = Ensures-throw _ (λ w h. inl h.0)
  Ensures-register_new none =
      Ensures-bind (λ _ w. New w) _ _ (Ensures-hash input.password)
        (λ hash.
          Ensures-bind Created _ _ (Ensures-create hash)
            (λ row.
              Ensures-weaken _ (Ensures-issue env (IsAdded w0 input row) row) (registered row))
            (λ e w h. inl h))
        (λ e w h. inl h.0)

-- A registration succeeds only for an email that no user has; it adds one user with that email and
-- the role USER, at the end of the table, and answers with that user and a token signed for the
-- user's id and role. When it throws, the table of users is as it was, or the user was added and
-- the library then refused to sign the token.
pub register-Registered :
    (env : Env) (w : World) (input : AuthInput)
    → Registered env w input (Auth.register env input w).0 (Auth.register env input w).1
unfolding Auth.register Users.find_by_email
register-Registered env w input =
    (Ensures-bind (Looked env w input) _ _
        (Ensures-statement (OnTables-Users env w input) env (Looked env w input) _
          (λ v h. (h, ap (find (has_email input.email)) (sym h))) (λ e v h. h))
        (Ensures-register_new env w input) (λ e v h. inl h)).at
      w refl
