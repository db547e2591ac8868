-- ===== src/Api/Repeat.antt =====
-- A payment request whose idempotency key is already in the table.
use mix_match_onchain.Base.{
  none_ne, ℕ, String, true, Option, none, some, List, [], ◌∷◌, ◌≡◌, refl, ap, ◌∙◌, arith, ◌==◌, any,
  find, Bool-cases, inl, inr, if◌then◌else◌,
}
use mix_match_onchain.Exec.{Result, ok, err, ◌>>=◌}
use mix_match_onchain.Exec.Rules.{
  Ensures, Ensures-bind, Ensures-try, Ensures-if, Ensures-throw, Ensures-pure, Ensures-Keeps,
}
use mix_match_onchain.Error.{Error}
use mix_match_onchain.Env.{Env}
use mix_match_onchain.Api.Rows.{Account, Transaction, World}
use mix_match_onchain.Api.Store.{App}
use mix_match_onchain.Api.Transactions
use mix_match_onchain.Api.Transactions.{is_pending, is_pending_signature}
use mix_match_onchain.Error.{duplicate_idempotency_key}
use mix_match_onchain.Env.Sdk.{Envelope}
use mix_match_onchain.Stellar.PathPayment.{PathQuote}
use mix_match_onchain.Stellar.Quiet.{submissions}
use mix_match_onchain.Api.Store.{is_unique_violation}
use mix_match_onchain.Api.Transactions.{NewTransaction, transaction_row, transaction_clash, has_key}
use mix_match_onchain.Api.Paths.{SendPaymentInput}
use mix_match_onchain.Api.Send
use mix_match_onchain.Api.Send.{Opening, fresh, repeated, payment_row}
use mix_match_onchain.Api.Quiet.{
  Still, Ensures-Still, Keeps-get_or_create_stellar_account, Keeps-quote_if_path,
}

fresh_ne : (a b : Transaction) → fresh a ≡ repeated b → ⊥
fresh_ne a b e = cc

-- The clash with the row that has the key.
find-any_clash :
    (key id : String) (input : NewTransaction) (now : ℕ) (rows : List Transaction)
    (row : Transaction)
    → input.idempotency_key ≡ key
    → find (has_key key) rows ≡ some row
    → any (transaction_clash (transaction_row input id now)) rows ≡ true
find-any_clash key id input now [] row e h = cc
find-any_clash key id input now (r ∷ rows) row e h = elim (Bool-cases (r.idempotency_key == key)) [
  | inl t ↦ rw e (rw t (ground arith))
  | inr f ↦ ground (arith, find-any_clash key id input now rows row)
]

-- What a repeated request comes to: the row, or an error; in either case the table of
-- transactions is `rows` and the submitted envelopes are `es`.
abbrev pub Repeated :
    List Transaction → List Envelope → Transaction → Result Error Transaction → World → Type 0
Repeated rows es row (ok r) w = Still rows es w × (r ≡ row)
Repeated rows es row (err e) w = Still rows es w

abbrev row_of : Opening → Transaction
row_of (fresh row) = row
row_of (repeated row) = row

module _ (env : Env) (rows : List Transaction) (es : List Envelope) (key : String)
    (row : Transaction) (known : find (has_key key) rows ≡ some row) where
  abbrev Answers : Result Error Transaction → World → Type 0
  Answers = Repeated rows es row

  abbrev Fails : {A : Type 0} → Result Error A → World → Type 0
  Fails (ok r) w = ⊥
  Fails (err e) w = Still rows es w

  abbrev Finds : Result Error (Option Transaction) → World → Type 0
  Finds (ok found) w = Still rows es w × (found ≡ some row)
  Finds (err e) w = Still rows es w

  abbrev Repeats : Result Error Opening → World → Type 0
  Repeats (ok opening) w = Still rows es w × (opening ≡ repeated row)
  Repeats (err e) w = Still rows es w

  insert-Fails :
      (input : NewTransaction) (id : String) (now : ℕ) (w : World)
      → input.idempotency_key ≡ key
      → Still rows es w
      → Fails
          (Transactions.insert env (transaction_row input id now) w).0
          (Transactions.insert env (transaction_row input id now) w).1
  unfolding Transactions.create
  insert-Fails input id now w e h =
      rw
        (ap (any (transaction_clash (transaction_row input id now))) h.rows_same
          ∙ find-any_clash key id input now rows row e known)
        h

  Ensures-known_key :
      {A : Type 0} (Q : Result Error A → World → Type 0) (m : String → App A) (k : String)
      → k ≡ key
      → Ensures (Still rows es) (m key) Q
      → Ensures (Still rows es) (m k) Q
  Ensures-known_key Q m k e h = rw e h

  Ensures-create_known :
      (input : NewTransaction)
      → input.idempotency_key ≡ key
      → Ensures (Still rows es) (Transactions.create env input) Fails
  unfolding Transactions.create
  Ensures-create_known input e =
      Ensures-try Fails _ _
        (Ensures-Still env rows es Fails _ (λ w h. insert-Fails input _ _ w e h) (λ e' w h. h))
        (λ error.
          Ensures-if (is_unique_violation error) _ _ (λ _. Ensures-throw _ (λ w h. h))
            (λ _. Ensures-throw _ (λ w h. h)))
        (λ a w h. absurd h)

  Ensures-find_known : Ensures (Still rows es) (Transactions.find_by_idempotency_key env key) Finds
  unfolding Transactions.find_by_idempotency_key
  Ensures-find_known =
      Ensures-Still env rows es Finds _ (λ w h. (h, ap (find (has_key key)) h.rows_same ∙ known))
        (λ e w h. h)

  Ensures-repeated_or_throw :
      (error : Error) (found : Option Transaction)
      → Ensures (Finds (ok found)) (Send.repeated_or_throw env error found) Repeats
  unfolding Send.open_transaction
  Ensures-repeated_or_throw error none = Ensures-throw error (λ w h. h.0)
  Ensures-repeated_or_throw error (some r) = Ensures-pure (repeated r) (λ w h. (h.0, cc))

  Ensures-reread :
      (error : Error)
      → Ensures
          (Still rows es)
          (do
            existing ← Transactions.find_by_idempotency_key env key
            Send.repeated_or_throw env error existing)
          Repeats
  Ensures-reread error =
      Ensures-bind Finds _ _ Ensures-find_known (Ensures-repeated_or_throw error) (λ e w h. h)

  Ensures-on_duplicate :
      (error : Error) → Ensures (Still rows es) (Send.on_duplicate env key error) Repeats
  unfolding Send.open_transaction
  Ensures-on_duplicate (duplicate_idempotency_key k) = Ensures-reread (duplicate_idempotency_key k)
  Ensures-on_duplicate error = Ensures-throw _ (λ w h. h)

  Ensures-open_known :
      (input : NewTransaction)
      → input.idempotency_key ≡ key
      → Ensures (Still rows es) (Send.open_transaction env input) Repeats
  unfolding Send.open_transaction
  Ensures-open_known input e =
      Ensures-try Fails _ _
        (Ensures-bind Fails _ _ (Ensures-create_known input e)
          (λ a. record { at = λ w h. absurd h }) (λ e' w h. h))
        (λ error.
          Ensures-known_key Repeats (λ k. Send.on_duplicate env k error) _ e
            (Ensures-on_duplicate error))
        (λ a w h. absurd h)

  Ensures-after_opening :
      (account : Account) (input : SendPaymentInput) (quote : Option PathQuote) (opening : Opening)
      → Ensures (Repeats (ok opening)) (Send.after_opening env account input quote opening) Answers
  unfolding Send.send_ordinary
  Ensures-after_opening account input quote (repeated r) =
      Ensures-pure r (λ w h. (h.0, ap row_of h.1))
  Ensures-after_opening account input quote (fresh r) = record {
    at = λ w h. absurd (fresh_ne r row h.1);
  }

  Ensures-existing_or_propose :
      (account : Account) (input : SendPaymentInput) (found : Option Transaction)
      → Ensures (Finds (ok found)) (Send.existing_or_propose env account input key found) Answers
  unfolding Send.send_high_value_payment
  Ensures-existing_or_propose account input none = record { at = λ w h. absurd (none_ne row h.1) }
  Ensures-existing_or_propose account input (some r) = Ensures-pure r (λ w h. (h.0, cc))

  Ensures-send_ordinary :
      (account : Account) (input : SendPaymentInput) (quote : Option PathQuote)
      → Ensures (Still rows es) (Send.send_ordinary env account input quote key) Answers
  unfolding Send.send_ordinary
  Ensures-send_ordinary account input quote =
      Ensures-bind Repeats _ _ (Ensures-open_known (payment_row account input quote key) refl)
        (Ensures-after_opening account input quote) (λ e w h. h)

  Ensures-send_high_value_payment :
      (account : Account) (input : SendPaymentInput)
      → Ensures (Still rows es) (Send.send_high_value_payment env account input key) Answers
  unfolding Send.send_high_value_payment
  Ensures-send_high_value_payment account input =
      Ensures-bind Finds _ _ Ensures-find_known (Ensures-existing_or_propose account input)
        (λ e w h. h)

  abbrev send_quoted : Account → SendPaymentInput → String → Option PathQuote → App Transaction
  send_quoted account input k quote =
      if Send.is_high_value_payment env input quote
      then Send.send_high_value_payment env account input k
      else Send.send_ordinary env account input quote k

  Ensures-send_keyed :
      (account : Account) (input : SendPaymentInput) (quote : Option PathQuote)
      → Ensures
          (Still rows es)
          (if Send.is_high_value_payment env input quote
            then Send.send_high_value_payment env account input key
            else Send.send_ordinary env account input quote key)
          Answers
  Ensures-send_keyed account input quote =
      Ensures-if (Send.is_high_value_payment env input quote) _ _
        (λ _. Ensures-send_high_value_payment account input)
        (λ _. Ensures-send_ordinary account input quote)

  abbrev Keyed : Result Error String → World → Type 0
  Keyed (ok k) w = Still rows es w × (k ≡ key)
  Keyed (err e) w = Still rows es w

  Ensures-key_or_random :
      (given : Option String)
      → given ≡ some key
      → Ensures (Still rows es) (Send.key_or_random env given) Keyed
  unfolding Send.send_payment
  Ensures-key_or_random none e = record { at = λ w h. absurd (none_ne key e) }
  Ensures-key_or_random (some k) e = Ensures-pure k (λ w h. (h, cc))

  Ensures-Keyed :
      (m : String → App Transaction) (k : String)
      → Ensures (Still rows es) (m key) Answers
      → Ensures (Keyed (ok k)) (m k) Answers
  Ensures-Keyed m k h = record { at = λ w p. (Ensures-known_key Answers m k p.1 h).at w p.0 }

  Ensures-send_payment :
      (user_id : String) (input : SendPaymentInput)
      → input.idempotency_key ≡ some key
      → Ensures (Still rows es) (Send.send_payment env user_id input) Answers
  unfolding Send.send_payment
  Ensures-send_payment user_id input e =
      Ensures-bind (λ _ w. Still rows es w) _ _
        (Ensures-Keeps _ (Keeps-get_or_create_stellar_account env rows es user_id))
        (λ account.
          Ensures-bind Keyed _ _ (Ensures-key_or_random input.idempotency_key e)
            (λ k.
              Ensures-Keyed
                (λ k'.
                  ◌>>=◌ {A = Option PathQuote} (Send.quote_if_path env input)
                    (send_quoted account input k'))
                k
                (Ensures-bind (λ _ w. Still rows es w) _ _
                  (Ensures-Keeps _ (Keeps-quote_if_path env rows es input))
                  (Ensures-send_keyed account input) (λ e' w h. h)))
            (λ e' w h. h))
        (λ e' w h. h)

-- A request whose idempotency key is already the key of a row leaves the table of transactions as
-- it is and submits nothing, whoever asks and whatever else the request holds; if it returns, it
-- returns that row.
pub send_payment-Repeated :
    (env : Env) (w : World) (user_id key : String) (input : SendPaymentInput) (row : Transaction)
    → find (has_key key) w.transactions ≡ some row
    → input.idempotency_key ≡ some key
    → Repeated w.transactions
        (submissions w.trace)
        row
        (Send.send_payment env user_id input w).0
        (Send.send_payment env user_id input w).1
send_payment-Repeated env w user_id key input row known e =
    (Ensures-send_payment env w.transactions (submissions w.trace) key row known user_id input e).at
      w (record { rows_same = refl; submitted_same = refl })
