-- ===== src/Api/Routes.antt =====
-- apps/api/src, the routes: modules/payments/payments.controller.ts, escrow.controller.ts and
-- anchor.controller.ts, modules/auth/auth.controller.ts, and common/zod-validation.pipe.ts.
pub mod Foreign
use mix_match_onchain.Base.{
  ℕ, String, Option, none, some, List, [], ◌∷◌, is_truthy, not, if◌then◌else◌,
}
use mix_match_onchain.Exec.{Result, ok, err, lift, pure, throw, ◌>>=◌}
use mix_match_onchain.Error.{Error, bad_request, not_found}
use mix_match_onchain.Env.{Env}
use mix_match_onchain.Env.Numbers.{JsNumber}
use mix_match_onchain.Env.Sdk.{StellarNetwork}
use mix_match_onchain.Api.Rows.{Transaction, Escrow, AnchorTransaction}
use mix_match_onchain.Api.Store.{App}
use mix_match_onchain.Api.Custody.{get_or_create_stellar_account}
use mix_match_onchain.Api.Owned
use mix_match_onchain.Api.EscrowService
use mix_match_onchain.Api.AnchorService
use mix_match_onchain.Api.Auth
use mix_match_onchain.Api.Auth.{AuthUser, AuthInput, AuthTokenResponse}
use mix_match_onchain.Api.Paths.{PathQuoteInput, PathQuoteResponse, preview_path}
use mix_match_onchain.Api.Guards.{Credential, jwt_auth_guard}
use mix_match_onchain.Api.HistoryRoute.{parse_history_query}

-- `schema.safeParse(value)`: the data, or the messages of the issues
pub data Parsed (T : Type 0) : Type 0 where
  success : T → Parsed T
  failure : List String → Parsed T

-- `ZodValidationPipe.transform`, after the schema's answer
abbrev pub transform : {T : Type 0} → Parsed T → Result Error T
transform (success value) = ok value
transform (failure []) = err (bad_request "Invalid request body")
transform (failure (message ∷ issues)) = err (bad_request message)

-- The bodies of the answers that are no row: `StellarAccountResponse`, and a page of transfers.
pub record StellarAccountResponse : Type 0 where
  pub public_key : String
  pub network : StellarNetwork

pub record AnchorHistoryResponse : Type 0 where
  pub transactions : List AnchorTransaction
  pub total : ℕ
  pub page : ℕ
  pub limit : ℕ

module _ (env : Env) where
  -- A method behind `JwtAuthGuard` with `@CurrentUserId()`.
  unfoldable pub authenticated : {A : Type 0} → (String → App A) → Credential → App A
  authenticated handler request = do identity ← jwt_auth_guard env request; handler identity.user_id

  -- `PaymentsController.account`
  unfoldable pub account : Credential → App StellarAccountResponse
  account = authenticated (λ user_id. do
    row ← get_or_create_stellar_account env user_id
    pure (record { public_key = row.public_key; network = row.network }))

  -- `PaymentsController.quote`
  unfoldable pub quote : Parsed PathQuoteInput → Credential → App PathQuoteResponse
  quote body = authenticated (λ user_id. do input ← lift (transform body); preview_path env input)

  -- `PaymentsController.status`
  unfoldable pub status : String → Credential → App Transaction
  status id = authenticated (λ user_id.
      if not (is_truthy id)
      then throw (not_found "Missing transaction id")
      else Owned.get_transaction_status env user_id id)

  -- `PaymentsController.reconcile`
  unfoldable pub reconcile : String → Credential → App Transaction
  reconcile id = authenticated (λ user_id. Owned.reconcile_transaction_by_id env user_id id)

  -- `EscrowController.get`
  unfoldable pub escrow : String → Credential → App Escrow
  escrow id = authenticated (λ user_id. EscrowService.get_owned_escrow env user_id id)

  -- `EscrowController.release`
  unfoldable pub release : String → Credential → App Escrow
  release id = authenticated (λ user_id. EscrowService.release_for_user env user_id id)

  -- `EscrowController.refund`
  unfoldable pub refund : String → Credential → App Escrow
  refund id = authenticated (λ user_id. EscrowService.refund_for_user env user_id id)

  -- `AnchorController.status`
  unfoldable pub anchor_status : String → Credential → App AnchorTransaction
  anchor_status id = authenticated (λ user_id. AnchorService.get_status_for_user env user_id id)

  pub user_or_missing : Option AuthUser → App AuthUser
  user_or_missing none = throw (not_found "User not found")
  user_or_missing (some user) = pure user

  -- `AuthController.me`
  unfoldable pub me : Credential → App AuthUser
  unfolding user_or_missing
  me = authenticated (λ user_id. do user ← Auth.get_current_user env user_id; user_or_missing user)

  -- `AuthController.register` and `AuthController.login`, which no guard stands before
  unfoldable pub register : Parsed AuthInput → App AuthTokenResponse
  register body = do input ← lift (transform body); Auth.register env input

  unfoldable pub login : Parsed AuthInput → App AuthTokenResponse
  login body = do input ← lift (transform body); Auth.login env input

module _ (env : Env) {Raw : Type 0} (number : Raw → JsNumber) where
  -- `AnchorController.history`
  unfoldable pub anchor_history : Option Raw → Option Raw → Credential → App AnchorHistoryResponse
  anchor_history page limit = authenticated env (λ user_id. do
    query ← lift (parse_history_query number page limit)
    found ← AnchorService.list_history_for_user env user_id query.page query.limit
    pure (record {
      transactions = found.transactions;
      total = found.total;
      page = query.page;
      limit = query.limit;
    }))
