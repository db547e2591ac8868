-- ===== src/Api/HistoryRoute.antt =====
-- apps/api/src/modules/payments: payments.validators.ts, and the route `GET payments/history` of
-- payments.controller.ts.
use mix_match_onchain.Base.{ℕ, Option, none, some, List, ltb, if◌then◌else◌}
use mix_match_onchain.Exec.{Result, ok, err, pure, lift, ◌>>=◌}
use mix_match_onchain.Error.{Error, bad_request}
use mix_match_onchain.Env.{Env}
use mix_match_onchain.Env.Numbers.{JsNumber, negative, natural, no_integer}
use mix_match_onchain.Api.Rows.{Transaction}
use mix_match_onchain.Api.Store.{App}
use mix_match_onchain.Api.Owned
use mix_match_onchain.Api.Guards.{Credential, jwt_auth_guard}

-- `HistoryQuery`
pub record HistoryQuery : Type 0 where
  pub page : ℕ
  pub limit : ℕ

abbrev pub max_history_limit : ℕ
max_history_limit = 100

abbrev pub default_history_limit : ℕ
default_history_limit = 20

abbrev not_positive : Error
not_positive = bad_request "page and limit must be positive integers"

abbrev pub positive : JsNumber → Result Error ℕ
positive negative = err not_positive
positive no_integer = err not_positive
positive (natural n) = if ltb n 1 then err not_positive else ok n

-- `Math.min`
abbrev pub at_most : ℕ → ℕ → ℕ
at_most bound n = if ltb bound n then bound else n

-- A query's parameters as the framework parsed them, where `number` is `Number(raw)`.
module _ {Raw : Type 0} (number : Raw → JsNumber) where
  -- `parsePositiveInt`
  abbrev pub parse_positive_int : Option Raw → ℕ → Result Error ℕ
  parse_positive_int none fallback = ok fallback
  parse_positive_int (some raw) fallback = positive (number raw)

  abbrev pub with_limit : ℕ → Result Error ℕ → Result Error HistoryQuery
  with_limit page (err e) = err e
  with_limit page (ok limit) = ok (record { page = page; limit = at_most max_history_limit limit })

  abbrev pub with_page : Result Error ℕ → Option Raw → Result Error HistoryQuery
  with_page (err e) limit = err e
  with_page (ok page) limit = with_limit page (parse_positive_int limit default_history_limit)

  -- `parseHistoryQuery`
  unfoldable pub parse_history_query : Option Raw → Option Raw → Result Error HistoryQuery
  parse_history_query page limit = with_page (parse_positive_int page 1) limit

-- The answer of the route.
pub record HistoryResponse : Type 0 where
  pub transactions : List Transaction
  pub total : ℕ
  pub page : ℕ
  pub limit : ℕ

module _ (env : Env) {Raw : Type 0} (number : Raw → JsNumber) where
  -- `PaymentsController.history`, behind `JwtAuthGuard`
  unfoldable pub history : Credential → Option Raw → Option Raw → App HistoryResponse
  history request page limit = do
    identity ← jwt_auth_guard env request
    query ← lift (parse_history_query number page limit)
    found ← Owned.list_transaction_history env identity.user_id query.page query.limit
    pure (record {
      transactions = found.transactions;
      total = found.total;
      page = query.page;
      limit = query.limit;
    })
