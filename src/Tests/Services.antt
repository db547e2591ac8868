-- ===== src/Tests/Services.antt =====
-- The results on the services and the guards, applied where their conditions hold.
use Prim.Native.String.{String}
use Prim.Native.Char.{code}
use mix_match_onchain.Base.{
  ℕ, ◌+◌, ◌-◌, true, Option, none, some, List, [], ◌∷◌, ◌++◌, ◌≡◌, refl, map, Text, codes, arith,
  length, NoColon, is_truthy, same_code, if◌then◌else◌, ap,
}
use mix_match_onchain.Exec.{Result, ok, err, pure, lift, ◌>>=◌}
use mix_match_onchain.Error.{Error, plain}
use mix_match_onchain.Env.{Env}
use mix_match_onchain.Env.Web.{Challenge, deposit, completed}
use mix_match_onchain.Env.Tokens.{JwtPayload, UserRole, user, admin}
use mix_match_onchain.Stellar.Net.{ask}
use mix_match_onchain.Stellar.Sep.Http.{fetch, ok_text}
use mix_match_onchain.Stellar.Sep.Auth.{Sep10AuthParams, fetch_challenge, authenticate_sep10}
use mix_match_onchain.Stellar.Sep.Transfer.{has}
use mix_match_onchain.Stellar.Sep.Refused.{authenticate_sep10-refused}
use mix_match_onchain.Api.Rows.{World, User}
use mix_match_onchain.Api.AnchorService
use mix_match_onchain.Api.AnchorService.Access.{
  StoredOrError, Denied, get_status_for_user-settled, get_status_for_user-foreign,
}
use mix_match_onchain.Api.AnchorService.Start.{Started, initiate-Started}
use mix_match_onchain.Api.AnchorService.History.{Counted, account_of, list_history_for_user-Returns}
use mix_match_onchain.Api.AnchorService.Quiet.{history, after, after-Still}
use mix_match_onchain.Api.Quiet.{Still}
use mix_match_onchain.Api.Anchors.{AnchorTransactionPage}
use mix_match_onchain.Stellar.Quiet.{submissions}
use mix_match_onchain.Api.Store.{statement}
use mix_match_onchain.Api.Users.{find_by_email}
use mix_match_onchain.Api.Guards.{admin_only, jwt_auth_guard}
use mix_match_onchain.Api.Approval.{approve_pending_signature}
use mix_match_onchain.Api.Guards.Admitted.{Admitted, admin_only-Admitted}
use mix_match_onchain.Api.Auth.{
  AuthInput, AuthTokenResponse, login, register, to_auth_user, sign_token, build_token_response,
}
use mix_match_onchain.Api.Auth.Login.{LoggedIn, Registered, login-LoggedIn, register-Registered}
use mix_match_onchain.Api.Auth.Token.{with_token, login-guard}
use mix_match_onchain.Api.Encryption.{
  Crypto, IsSound, encrypt_secret_key, decrypt_secret_key, decrypt-encrypt,
}
use mix_match_onchain.Api.HistoryRoute.{history as history_route}
use mix_match_onchain.Env.Numbers.{natural}
use mix_match_onchain.Api.HistoryBounds.{IsBounded, history-IsBounded}
use mix_match_onchain.Api.Job.{
  Job, idle, run_once, settle, Reach, tick, settles, entry_of, summarize_by_status,
}
use mix_match_onchain.Api.Job as Jobs
use mix_match_onchain.Api.Job.Passes.{IsSingle, Reach-IsSingle, with_status, entry_of-summarize}
use mix_match_onchain.Api.Routes
use mix_match_onchain.Api.Routes.Foreign.{Denied as Denied_escrow, release-Denied}
use mix_match_onchain.Tests.Outside.{env, world, alice, closed, paid, waiting, transfer, params}

abbrev auth_params : Sep10AuthParams
auth_params = record {
  web_auth_endpoint = "https://anchor.example/auth";
  server_signing_key = "GANCHOR";
  home_domain = "anchor.example";
  wallet = params.source_wallet;
  network_passphrase = "Test SDF Network ; September 2015";
}

-- The challenge with the sequence number 7.
abbrev challenge : Challenge
challenge = record {
  sequence = "7";
  envelope = record {
    source = record { account_id = "GANCHOR"; sequence = "6" };
    fee = "100";
    network_passphrase = "Test SDF Network ; September 2015";
    operations = [];
    memo = none;
    timeout_seconds = 300;
    signatures = "anchor's" ∷ [];
  };
}

authenticate_sep10-refused_example :
    (e : Error) × (authenticate_sep10 env auth_params []
      ≡ (err e, (fetch_challenge env auth_params []).1))
unfolding fetch_challenge fetch ok_text ask lift ◌>>=◌
authenticate_sep10-refused_example =
    authenticate_sep10-refused env auth_params challenge [] refl refl

-- A world whose deposit is completed.
abbrev settled_world : World
settled_world = record world { anchors = record transfer { status = completed } ∷ [] }

get_status_for_user-settled_example :
    StoredOrError env settled_world "alice" "transfer row"
      (record transfer { status = completed })
      (AnchorService.get_status_for_user env "alice" "transfer row" settled_world).0
      (AnchorService.get_status_for_user env "alice" "transfer row" settled_world).1
unfolding has
get_status_for_user-settled_example =
    get_status_for_user-settled env settled_world "alice" "transfer row"
      (record transfer { status = completed }) refl refl

get_status_for_user-foreign_example :
    Denied world
      (AnchorService.get_status_for_user env "mallory" "transfer row" world).0
      (AnchorService.get_status_for_user env "mallory" "transfer row" world).1
get_status_for_user-foreign_example =
    get_status_for_user-foreign env world "mallory" "transfer row" transfer alice refl refl refl

initiate-Started_example :
    Started env
      (transfer ∷ [])
      (AnchorService.initiate env "alice" deposit
        (record { asset_code = "USDC"; amount = some "5" })
        world).0
      (AnchorService.initiate env "alice" deposit
        (record { asset_code = "USDC"; amount = some "5" })
        world).1
initiate-Started_example =
    initiate-Started env world "alice" deposit (record { asset_code = "USDC"; amount = some "5" })

list_history_for_user-Returns_example :
    (result : AnchorTransactionPage) × ((AnchorService.list_history_for_user env "alice" 1 20
        world).0
      ≡ ok result)
    × Counted
        (account_of "alice" world)
        result
        (AnchorService.list_history_for_user env "alice" 1 20 world).1
list_history_for_user-Returns_example =
    list_history_for_user-Returns env (λ t. refl) world "alice" 1 20

after-Still_example :
    Still world.transactions (submissions world.trace) (after env "alice" (history 1 20) world)
after-Still_example = after-Still env "alice" (history 1 20) world

admin_only-Admitted_example :
    Admitted env
      (approve_pending_signature env "waiting")
      (with_token "alice")
      world
      (admin_only env (approve_pending_signature env "waiting") (with_token "alice") world)
admin_only-Admitted_example =
    admin_only-Admitted env world (approve_pending_signature env "waiting") (with_token "alice")

-- The escrow of alice, asked for by mallory.
release-Denied_example :
    Denied_escrow world (Routes.escrow env closed.id (with_token "mallory") world)
    × Denied_escrow world (Routes.release env closed.id (with_token "mallory") world)
    × Denied_escrow world (Routes.refund env closed.id (with_token "mallory") world)
release-Denied_example =
    release-Denied env world closed.id closed alice refl refl (with_token "mallory")
      (record { sub = "mallory"; role = some admin })
      (record { token = "mallory"; carried = refl; verified = refl; subject = refl }) refl

-- The first character of a token is its role.
abbrev role_letter : Option UserRole → String → String
role_letter none s = String.◌∷◌ "n" s
role_letter (some user) s = String.◌∷◌ "u" s
role_letter (some admin) s = String.◌∷◌ "a" s

abbrev letter_role : ℕ → Option UserRole
letter_role n =
    if same_code n b'n' then none else (if same_code n b'u' then some user else some admin)

abbrev read_token : String → Result Error JwtPayload
read_token String.[] = err (plain "no token")
read_token (String.◌∷◌ c s) = ok (record { sub = s; role = letter_role (code c) })

abbrev token_env : Env
token_env = record env {
  credentials = record env.credentials {
    sign_token = λ t payload. ok (role_letter payload.role payload.sub);
    verify_token = λ t token. read_token token;
  };
}

reads_back :
    (role : Option UserRole) (sub : String)
    → read_token (role_letter role sub) ≡ ok (record { sub = sub; role = role })
reads_back none sub = refl
reads_back (some user) sub = refl
reads_back (some admin) sub = refl

solid_token :
    (role : Option UserRole) (sub token : String)
    → ◌≡◌ {A = Result Error String} (ok (role_letter role sub)) (ok token)
    → is_truthy token ≡ true
solid_token none sub token e = cc
solid_token (some user) sub token e = cc
solid_token (some admin) sub token e = cc

same_payload :
    (payload payload' : JwtPayload) (token : String)
    → ◌≡◌ {A = Result Error String} (ok (role_letter payload.role payload.sub)) (ok token)
    → read_token token ≡ ok payload'
    → read_token (role_letter payload.role payload.sub) ≡ ok payload
    → payload' ≡ payload
same_payload payload payload' token e f g = cc

-- A world with the user bob.
abbrev bob : User
bob = record {
  id = "bob";
  email = "bob@example.com";
  password_hash = some "secret";
  role = admin;
  created_at = 0;
  updated_at = 0;
}

abbrev user_world : World
user_world = record world { users = bob ∷ [] }

abbrev bobs_login : AuthInput
bobs_login = record { email = "bob@example.com"; password = "secret" }

abbrev bobs_answer : AuthTokenResponse
bobs_answer = record {
  user = to_auth_user token_env bob;
  access_token = role_letter (some admin) "bob";
}

login-guard_example :
    jwt_auth_guard token_env (with_token bobs_answer.access_token) world
    ≡ (ok (record { user_id = "bob"; user_role = some admin }), world)
unfolding login find_by_email statement build_token_response sign_token pure ◌>>=◌
login-guard_example =
    login-guard token_env world
      (record {
        solid = λ t payload token e. solid_token payload.role payload.sub token e;
        reads = λ t t' payload payload' token e f.
            same_payload payload payload' token e f (reads_back payload.role payload.sub);
      })
      user_world bobs_login bobs_answer (record { sub = "bob"; role = some admin }) refl refl refl

login-LoggedIn_example :
    LoggedIn token_env user_world bobs_login
      (login token_env bobs_login user_world).0
      (login token_env bobs_login user_world).1
login-LoggedIn_example = login-LoggedIn token_env user_world bobs_login

register-Registered_example :
    Registered token_env world bobs_login
      (register token_env bobs_login world).0
      (register token_env bobs_login world).1
register-Registered_example = register-Registered token_env world bobs_login

-- A cipher for tests: the tag is the key, and a byte is written as one character past the colon.
abbrev crypto : Crypto
crypto = record {
  Bytes = List ℕ;
  hex = map (λ n. n + 100);
  from_hex = map (λ n. n - 100);
  encode = λ t. t;
  decode = λ b. b;
  seal = λ key iv plaintext. ok (plaintext, key);
  reveal = λ key iv tag ciphertext. ok ciphertext;
}

hex_back : (b : List ℕ) → map (λ n. n - 100) (map (λ n. n + 100) b) ≡ b
hex_back [] = refl
hex_back (n ∷ b) = rw (hex_back b) (ap (λ m. m ∷ b) (omega arith))

hex_plain : (b : List ℕ) → NoColon (map (λ n. n + 100) b)
hex_plain [] = tt
hex_plain (n ∷ b) = (ground arith, hex_plain b)

same_sealed :
    (key p c t : List ℕ) (r : Result Error (List ℕ × List ℕ))
    → r ≡ ok (p, key)
    → r ≡ ok (c, t)
    → c ≡ p
same_sealed key p c t r e f = cc

sound : (secret : Text) → IsSound crypto secret
sound secret = record {
  hex_back = hex_back;
  hex_plain = hex_plain;
  text_back = refl;
  revealed = λ key iv p c t e. ap (λ x. ok x) (same_sealed key p c t _ refl e);
}

decrypt-encrypt_example :
    decrypt_secret_key crypto
      (codes "efg:key:" ++ map (λ n. n + 100) (codes "SECRET"))
      (codes "key")
    ≡ ok (codes "SECRET")
unfolding encrypt_secret_key
decrypt-encrypt_example =
    decrypt-encrypt crypto (1 ∷ 2 ∷ 3 ∷ []) (codes "SECRET") (sound (codes "SECRET")) (codes "key")
      (codes "efg:key:" ++ map (λ n. n + 100) (codes "SECRET")) refl

history-IsBounded_example :
    IsBounded
      (history_route env natural (with_token "alice") (some 1) (some 500) world).0
      (history_route env natural (with_token "alice") (some 1) (some 500) world).1
history-IsBounded_example =
    history-IsBounded env natural (with_token "alice") (some 1) (some 500) world

-- A pass starts, a tick falls into it, and it ends.
abbrev passed : Job
passed = settle (ok (paid ∷ waiting ∷ [])) (run_once (run_once idle))

abbrev passes : Reach passed
unfolding run_once
passes =
    Jobs.next (Jobs.next (Jobs.next Jobs.start tick) tick)
      (settles 0 (ok (paid ∷ waiting ∷ [])) refl)

Reach-IsSingle_example : IsSingle passed
Reach-IsSingle_example = Reach-IsSingle passed passes

entry_of-summarize_example :
    entry_of "SUCCESS" (summarize_by_status (paid ∷ waiting ∷ []))
    ≡ length (with_status "SUCCESS" (paid ∷ waiting ∷ []))
entry_of-summarize_example = entry_of-summarize "SUCCESS" (paid ∷ waiting ∷ [])
