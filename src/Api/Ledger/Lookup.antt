-- ===== src/Api/Ledger/Lookup.antt =====
-- What the repository's answers say of the table that they leave.
use mix_match_onchain.Base.{
  ℕ, String, Bool, true, false, Option, none, some, List, [], ◌∷◌, ◌++◌, ◌≡◌, refl, ◌∙◌, arith, any,
  find, select, All, truthy, Bool-cases, inl, inr, if◌then◌else◌,
}
use mix_match_onchain.Exec.{Result, ok, err, throw}
use mix_match_onchain.Exec.Rules.{Keeps, Ensures, Ensures-try, Ensures-if, Ensures-throw}
use mix_match_onchain.Error.{Error, duplicate_idempotency_key}
use mix_match_onchain.Env.{Env}
use mix_match_onchain.Api.Rows.{Transaction, TransactionStatus, pending, pending_signature, World}
use mix_match_onchain.Api.Store.{is_unique_violation}
use mix_match_onchain.Api.Store.Rules.{Keeps-statement, Ensures-statement}
use mix_match_onchain.Api.Transactions
use mix_match_onchain.Api.Transactions.{
  NewTransaction, transaction_row, transaction_clash, has_id, is_pending,
}
use mix_match_onchain.Api.Ledger.Table.{
  Apart, Apart-select, All-unit, All-append, All-map, All-find, All-any-false, All-select,
  All-status_of_id, not_clash-has_id,
}
use mix_match_onchain.Api.Ledger.Update.{
  Since, Open, HasStatus, OnTables-Since, Since-append, transaction_row-IsSound,
}

-- The status that a new row gets.
abbrev pub initial : NewTransaction → TransactionStatus
initial input = if truthy input.pending_envelope_xdr then pending_signature else pending

module _ (env : Env) (rows : List Transaction) where
  -- The row that was found is the only one with its id.
  abbrev pub Found : Result Error (Option Transaction) → World → Type 0
  Found (ok (some row)) w = Open rows row.id row.status w
  Found (ok none) w = Since rows w
  Found (err e) w = Since rows w

  abbrev pub FoundAll : TransactionStatus → Result Error (List Transaction) → World → Type 0
  FoundAll s (ok found) w =
      Since rows w
      × All (λ row. HasStatus row.id s w) found
      × All (λ row. row.status ≡ s) found
      × Apart found
  FoundAll s (err e) w = Since rows w

  abbrev pub Created : NewTransaction → Result Error Transaction → World → Type 0
  Created input (ok row) w = Open rows row.id (initial input) w
  Created input (err e) w = Since rows w

  Found-open :
      (id : String) (w : World)
      → Since rows w
      → (found : Option Transaction) → find (has_id id) w.transactions ≡ found
      → Found (ok found) w
  Found-open id w h none e = h
  Found-open id w h (some row) e = record {
    since = h;
    status =
        (All-find _ (has_id id) w.transactions
          (All-status_of_id w.transactions h.well_formed.distinct) e).0;
  }

  pub Ensures-find_by_id :
      (id : String) → Ensures (Since rows) (Transactions.find_by_id env id) Found
  unfolding Transactions.find_by_id
  Ensures-find_by_id id =
      Ensures-statement (OnTables-Since rows) env Found _ (λ w h. Found-open id w h _ refl)
        (λ e w h. h)

  pub Keeps-find_by_idempotency_key :
      (key : String) → Keeps (Since rows) (Transactions.find_by_idempotency_key env key)
  unfolding Transactions.find_by_idempotency_key
  Keeps-find_by_idempotency_key key = Keeps-statement (OnTables-Since rows) env _ (λ w h. h)

  Created-open :
      (input : NewTransaction) (id : String) (now : ℕ) (w : World)
      → Since rows w
      → any (transaction_clash (transaction_row input id now)) w.transactions ≡ false
      → Created input
          (ok (transaction_row input id now))
          (record w { transactions = w.transactions ++ (transaction_row input id now ∷ []) })
  Created-open input id now w h free = record {
    since = Since-append rows _ w h (transaction_row-IsSound input id now) free;
    status =
        All-append _ w.transactions (transaction_row input id now)
          (All-map _ _ w.transactions
            (λ b e k. absurd (not_clash-has_id (transaction_row input id now) b e k))
            (All-any-false _ w.transactions free))
          (λ _. refl);
  }

  pub Ensures-create :
      (input : NewTransaction)
      → Ensures (Since rows) (Transactions.create env input) (Created input)
  unfolding Transactions.create
  Ensures-create input =
      Ensures-try (Created input) _ _
        (Ensures-statement (OnTables-Since rows) env (Created input) _
          (λ w h.
            let row = transaction_row input (env.db_uuid w.trace) (env.db_now w.trace) in
            elim (Bool-cases (any (transaction_clash row) w.transactions)) [
              | inl e ↦ rw e h
              | inr e ↦ rw e (Created-open input _ _ w h e)
            ])
          (λ e w h. h))
        (λ e.
          Ensures-if (is_unique_violation e)
            (throw (duplicate_idempotency_key input.idempotency_key)) (throw e)
            (λ _. Ensures-throw _ (λ s p. p)) (λ _. Ensures-throw _ (λ s p. p)))
        (λ row w h. h)

  selected :
      (p : Transaction → Bool) (s : TransactionStatus) (w : World)
      → ((row : Transaction) → p row ≡ true → row.status ≡ s)
      → Since rows w
      → FoundAll s (ok (select p w.transactions)) w
  selected p s w only h = (
    h,
    All-map _ _ _ (λ row f. All-map _ _ w.transactions (λ b g k. g k ∙ only row f.1) f.0)
        (All-select p _ w.transactions (All-status_of_id w.transactions h.well_formed.distinct)),
    All-map _ _ _ (λ row f. only row f.1)
        (All-select p (λ _. Unit) w.transactions (All-unit w.transactions)),
    Apart-select p w.transactions h.well_formed.distinct,
  )

  pub Ensures-find_stale_pending :
      (older_than : ℕ)
      → Ensures (Since rows) (Transactions.find_stale_pending env older_than) (FoundAll pending)
  unfolding Transactions.find_stale_pending
  Ensures-find_stale_pending older_than =
      Ensures-statement (OnTables-Since rows) env (FoundAll pending) _
        (λ w h. selected _ pending w (λ row e. ground arith) h) (λ e w h. h)

  pub Ensures-find_pending_by_stellar_account_id :
      (id : String)
      → Ensures
          (Since rows)
          (Transactions.find_pending_by_stellar_account_id env id)
          (FoundAll pending)
  unfolding Transactions.find_pending_by_stellar_account_id
  Ensures-find_pending_by_stellar_account_id id =
      Ensures-statement (OnTables-Since rows) env (FoundAll pending) _
        (λ w h. selected _ pending w (λ row e. ground arith) h) (λ e w h. h)
