-- ===== src/Api/Routes/Foreign.antt =====
-- Requests to the escrow of another user (apps/api/src/modules/payments, escrow.controller.ts and
-- escrow.service.ts, behind auth/jwt-auth.guard.ts).
use mix_match_onchain.Base.{
  ℕ, String, false, true, Option, none, some, ◌≡◌, ap, ◌∙◌, find, ◌==◌, inl, inr,
}
use mix_match_onchain.Exec.{Result, ok, err, ◌>>=◌}
use mix_match_onchain.Exec.Rules.{Ensures, Ensures-bind, Ensures-if, Ensures-throw}
use mix_match_onchain.Error.{Error}
use mix_match_onchain.Env.{Env}
use mix_match_onchain.Env.Tokens.{JwtPayload}
use mix_match_onchain.Stellar.Net.{Net}
use mix_match_onchain.Stellar.Wallet.{Wallet}
use mix_match_onchain.Api.Rows.{Account, Escrow, EscrowStatus, World}
use mix_match_onchain.Api.Store.{App}
use mix_match_onchain.Api.Store.Rules.{Ensures-stated}
use mix_match_onchain.Api.Accounts
use mix_match_onchain.Api.Escrows
use mix_match_onchain.Api.EscrowService
use mix_match_onchain.Api.Access.{account_id_is}
use mix_match_onchain.Api.AnchorService.Access.{Unchanged, unchanged, OnStatements-Unchanged}
use mix_match_onchain.Api.Guards
use mix_match_onchain.Api.Guards.{Credential, token_of}
use mix_match_onchain.Api.Guards.Admitted.{IsVerified, token-Guarded}
use mix_match_onchain.Api.Routes

-- An error; no table is changed, and nothing but statements left the process.
abbrev pub Denied : World → Result Error Escrow × World → Type 0
Denied w0 (ok row, w) = ⊥
Denied w0 (err e, w) = Unchanged w0 w

same_account :
    (r row : Escrow) (account : Option Account) (find_account : String → Option Account)
    → some r ≡ some row
    → find_account row.payer_stellar_account_id ≡ account
    → find_account r.payer_stellar_account_id ≡ account
same_account r row account find_account e f = cc

other_user :
    (a account : Account) (user_id : String)
    → some a ≡ some account
    → (a.user_id == user_id) ≡ true
    → (account.user_id == user_id) ≡ false
    → ⊥
other_user a account user_id e t f = cc

same_sub :
    (verify : String → Result Error JwtPayload) (token token' : String) (p p' : JwtPayload)
    (carried : Option String)
    → carried ≡ some token
    → carried ≡ some token'
    → verify token ≡ ok p
    → verify token' ≡ ok p'
    → p'.sub ≡ p.sub
same_sub verify token token' p p' carried a b e f = cc

module _ (env : Env) (w0 : World) (id : String) (row : Escrow) (account : Account)
    (found : find (Escrows.has_id id) w0.escrows ≡ some row)
    (payer : find (account_id_is row.payer_stellar_account_id) w0.accounts ≡ some account) where
  abbrev Refused : Result Error Escrow → World → Type 0
  Refused r w = Denied w0 (r, w)

  abbrev ReadRow : Result Error (Option Escrow) → World → Type 0
  ReadRow (ok r) w = Unchanged w0 w × (r ≡ some row)
  ReadRow (err e) w = Unchanged w0 w

  abbrev ReadPayer : Result Error (Option Account) → World → Type 0
  ReadPayer (ok a) w = Unchanged w0 w × (a ≡ some account)
  ReadPayer (err e) w = Unchanged w0 w

  module _ (user_id : String) (other : (account.user_id == user_id) ≡ false) where
    Ensures-owned_by :
        (r : Escrow) (a : Option Account)
        → Ensures (ReadPayer (ok a)) (EscrowService.owned_by env user_id r a) Refused
    unfolding EscrowService.get_owned_escrow
    Ensures-owned_by r none = Ensures-throw _ (λ w h. h.0)
    Ensures-owned_by r (some a) =
        Ensures-if (a.user_id == user_id) _ _
          (λ t. record { at = λ w h. absurd (other_user a account user_id h.1 t other) })
          (λ _. Ensures-throw _ (λ w h. h.0))

    Ensures-with_owner :
        (r : Option Escrow)
        → Ensures (ReadRow (ok r)) (EscrowService.with_owner env user_id r) Refused
    unfolding EscrowService.get_owned_escrow Accounts.find_by_id
    Ensures-with_owner none = Ensures-throw _ (λ w h. h.0)
    Ensures-with_owner (some r) = record {
      at = λ w h.
          (Ensures-bind {P = Unchanged w0} {Q = Refused} ReadPayer _
              (EscrowService.owned_by env user_id r)
              (Ensures-stated (OnStatements-Unchanged w0) env ReadPayer _
                (λ w' k. (
                  k,
                  ap (find (account_id_is r.payer_stellar_account_id)) k.tables.accounts
                      ∙ same_account r row (some account)
                          (λ key. find (account_id_is key) w0.accounts) h.1 payer,
                ))
                (λ e w' k. k))
              (Ensures-owned_by r) (λ e w' k. k)).at
            w h.0;
    }

    Ensures-get_owned_escrow :
        Ensures (Unchanged w0) (EscrowService.get_owned_escrow env user_id id) Refused
    unfolding EscrowService.get_owned_escrow Escrows.find_by_id
    Ensures-get_owned_escrow =
        Ensures-bind ReadRow _ _
          (Ensures-stated (OnStatements-Unchanged w0) env ReadRow _
            (λ w k. (k, ap (find (Escrows.has_id id)) k.tables.escrows ∙ found)) (λ e w k. k))
          Ensures-with_owner (λ e w k. k)

    Ensures-finalize :
        (word : String) (method : String → Option ℕ → Wallet → Net String) (next : EscrowStatus)
        → Ensures (Unchanged w0) (EscrowService.finalize env word method next user_id id) Refused
    unfolding EscrowService.finalize
    Ensures-finalize word method next =
        Ensures-bind Refused _ _ Ensures-get_owned_escrow (λ r. record { at = λ w h. absurd h })
          (λ e w h. h)

  module _ (request : Credential) (payload : JwtPayload)
      (verified : IsVerified env w0 request payload)
      (other : (account.user_id == payload.sub) ≡ false) where
    -- The guard hands on the subject, or refuses.
    authenticated-Denied :
        (handler : String → App Escrow)
        → ((user_id : String)
            → (account.user_id == user_id) ≡ false
            → Ensures (Unchanged w0) (handler user_id) Refused)
        → Denied w0 (Routes.authenticated env handler request w0)
    unfolding Routes.authenticated Guards.jwt_auth_guard ◌>>=◌
    authenticated-Denied handler h = elim (token-Guarded env w0 (token_of request)) [
      | inr (e, stop) ↦ rw stop (unchanged w0)
      | inl (t, found_payload, carried, read, subject, go) ↦ rw go (
          (h found_payload.sub (
              ap (λ sub. account.user_id == sub)
                (same_sub (env.credentials.verify_token w0.trace) verified.token t payload
                  found_payload (token_of request) verified.carried carried verified.verified read)
              ∙ other)).at
            w0 (unchanged w0))
    ]

    -- For an escrow in the table, whose paying account is of another user than the verified token of
    -- the request: to read, to release or to refund it is an error, no table is changed, and
    -- nothing is called but the database.
    pub release-Denied :
        Denied w0 (Routes.escrow env id request w0)
        × Denied w0 (Routes.release env id request w0)
        × Denied w0 (Routes.refund env id request w0)
    unfolding Routes.escrow Routes.release Routes.refund EscrowService.release_for_user
        EscrowService.refund_for_user
    release-Denied = (
      authenticated-Denied _ (λ user_id o. Ensures-get_owned_escrow user_id o),
      authenticated-Denied _ (λ user_id o. Ensures-finalize user_id o _ _ _),
      authenticated-Denied _ (λ user_id o. Ensures-finalize user_id o _ _ _),
    )
