-- ===== src/Api/HistoryBounds.antt =====
-- The size of a page of the payments' history (apps/api, payments.validators.ts and the route
-- `GET payments/history`).
use mix_match_onchain.Base.{
  ℕ, zero, suc, ◌≤◌, String, Bool-cases, inl, inr, Option, none, some, List, [], ◌∷◌, ltb, length,
  take, arith,
}
use mix_match_onchain.Exec.{Result, ok, err, pure, lift, ◌>>=◌}
use mix_match_onchain.Exec.Rules.{Ensures, Ensures-bind, Ensures-pure}
use mix_match_onchain.Error.{Error}
use mix_match_onchain.Env.{Env}
use mix_match_onchain.Api.Rows.{Account, Transaction, World}
use mix_match_onchain.Api.Store.Rules.{OnTables, Ensures-statement}
use mix_match_onchain.Api.Transactions
use mix_match_onchain.Api.Transactions.{TransactionPage}
use mix_match_onchain.Api.Owned
use mix_match_onchain.Api.Guards.{Credential}
use mix_match_onchain.Env.Numbers.{JsNumber, negative, natural, no_integer}
use mix_match_onchain.Api.HistoryRoute.{
  positive, at_most, HistoryQuery, HistoryResponse, parse_positive_int, with_limit, with_page,
  parse_history_query, history,
}

length-take : {A : Type 0} (n : ℕ) (xs : List A) → length (take n xs) ≤ n
length-take zero xs = omega arith
length-take (suc n) [] = omega arith
length-take (suc n) (x ∷ xs) = omega (arith, length-take n xs)

-- At least one, or an error.
abbrev Positive : Result Error ℕ → Type 0
Positive (ok n) = 1 ≤ n
Positive (err e) = Unit

positive-Positive : (n : JsNumber) → Positive (positive n)
positive-Positive negative = tt
positive-Positive no_integer = tt
positive-Positive (natural n) = elim (Bool-cases (ltb n 1)) [
  | inl t ↦ rw t tt
  | inr f ↦ rw f (ground arith)
]

at_most-bounds : (n : ℕ) → 1 ≤ n → (1 ≤ at_most 100 n) × (at_most 100 n ≤ 100)
at_most-bounds n h = (ground arith, ground arith)

-- A page from 1 and a limit from 1 to 100, or an error.
abbrev pub IsWithin : Result Error HistoryQuery → Type 0
IsWithin (ok query) = (1 ≤ query.page) × (1 ≤ query.limit) × (query.limit ≤ 100)
IsWithin (err e) = Unit

module _ {Raw : Type 0} (number : Raw → JsNumber) where
  parse_positive_int-Positive :
      (raw : Option Raw) (fallback : ℕ)
      → 1 ≤ fallback
      → Positive (parse_positive_int number raw fallback)
  parse_positive_int-Positive none fallback h = h
  parse_positive_int-Positive (some raw) fallback h = positive-Positive (number raw)

  with_limit-IsWithin :
      (page : ℕ) (r : Result Error ℕ) → 1 ≤ page → Positive r → IsWithin (with_limit number page r)
  with_limit-IsWithin page (err e) h p = tt
  with_limit-IsWithin page (ok limit) h p =
      let (low, high) = at_most-bounds limit p in (h, low, high)

  with_page-IsWithin :
      (r : Result Error ℕ) (limit : Option Raw) → Positive r → IsWithin (with_page number r limit)
  with_page-IsWithin (err e) limit p = tt
  with_page-IsWithin (ok page) limit p =
      with_limit-IsWithin page _ p (parse_positive_int-Positive limit 20 (omega arith))

  parse-IsWithin : (page limit : Option Raw) → IsWithin (parse_history_query number page limit)
  unfolding parse_history_query
  parse-IsWithin page limit =
      with_page-IsWithin _ limit (parse_positive_int-Positive page 1 (omega arith))

abbrev Any : World → Type 0
Any w = Unit

-- No more rows than the limit.
abbrev Short : ℕ → Result Error TransactionPage → World → Type 0
Short limit (ok page) w = length page.transactions ≤ limit
Short limit (err e) w = Unit

-- A page within the bounds, with no more rows than its limit; or an error.
abbrev pub IsBounded : Result Error HistoryResponse → World → Type 0
IsBounded (ok r) w =
    (1 ≤ r.page) × (1 ≤ r.limit) × (r.limit ≤ 100) × (length r.transactions ≤ r.limit)
IsBounded (err e) w = Unit

module _ (env : Env) where
  OnTables-Any : OnTables Any
  OnTables-Any = record { shift = λ w t h. tt }

  abbrev ShortRows : ℕ → Result Error (List Transaction) → World → Type 0
  ShortRows limit (ok rows) w = length rows ≤ limit
  ShortRows limit (err e) w = Unit

  Ensures-list :
      (account_id : String) (page limit : ℕ)
      → Ensures Any
          (Transactions.list_by_stellar_account_id env account_id page limit)
          (Short limit)
  unfolding Transactions.list_by_stellar_account_id
  Ensures-list account_id page limit =
      Ensures-bind (ShortRows limit) _ _
        (Ensures-statement OnTables-Any env (ShortRows limit) _ (λ w h. length-take limit _)
          (λ e w h. tt))
        (λ rows.
          Ensures-bind (λ _ _. length rows ≤ limit) _ _ (record { at = λ w h. h })
            (λ total. Ensures-pure _ (λ w h. h)) (λ e w h. tt))
        (λ e w h. tt)

  Ensures-page_of :
      (found : Option Account) (page limit : ℕ)
      → Ensures Any (Owned.page_of env found page limit) (Short limit)
  unfolding Owned.list_transaction_history
  Ensures-page_of none page limit = Ensures-pure _ (λ w h. omega arith)
  Ensures-page_of (some account) page limit = Ensures-list account.id page limit

  Ensures-list_history :
      (user_id : String) (page limit : ℕ)
      → Ensures Any (Owned.list_transaction_history env user_id page limit) (Short limit)
  unfolding Owned.list_transaction_history
  Ensures-list_history user_id page limit =
      Ensures-bind (λ _ _. Unit) _ _ (record { at = λ w h. tt })
        (λ found. Ensures-page_of found page limit) (λ e w h. tt)

  module _ {Raw : Type 0} (number : Raw → JsNumber) where
    Ensures-lift :
        (page limit : Option Raw)
        → Ensures Any (lift (parse_history_query number page limit)) (λ r w. IsWithin r)
    unfolding lift
    Ensures-lift page limit = record { at = λ w h. parse-IsWithin number page limit }

    Ensures-found :
        (query : HistoryQuery) (found : TransactionPage)
        → IsWithin (ok query)
        → Ensures
            (Short query.limit (ok found))
            (pure (record {
              transactions = found.transactions;
              total = found.total;
              page = query.page;
              limit = query.limit;
            }))
            IsBounded
    Ensures-found query found (p, l, m) = Ensures-pure _ (λ w h. (p, l, m, h))

    Ensures-query :
        (user_id : String) (query : HistoryQuery)
        → Ensures
            (λ w. IsWithin (ok query))
            (Owned.list_transaction_history env user_id query.page query.limit >>= λ found.
              pure (record {
                transactions = found.transactions;
                total = found.total;
                page = query.page;
                limit = query.limit;
              }))
            IsBounded
    Ensures-query user_id query = record {
      at = λ w within.
          (Ensures-bind {Q = IsBounded} (Short query.limit) _ _
              (Ensures-list_history user_id query.page query.limit)
              (λ found. Ensures-found query found within) (λ e w h. tt)).at
            w tt;
    }

    -- The route of the payments' history, for any request: a page that it answers has a number from
    -- 1, a limit from 1 to 100, and no more transactions than the limit.
    pub history-IsBounded :
        (request : Credential) (page limit : Option Raw) (w : World)
        → IsBounded
            (history env number request page limit w).0
            (history env number request page limit w).1
    unfolding history
    history-IsBounded request page limit w =
        (Ensures-bind {P = Any} {Q = IsBounded} (λ _ _. Unit) _ _ (record { at = λ w h. tt })
            (λ identity.
              Ensures-bind (λ r _. IsWithin r) _ _ (Ensures-lift page limit)
                (λ query. Ensures-query identity.user_id query) (λ e w h. tt))
            (λ e w h. tt)).at
          w tt
