-- ===== src/Api/Ledger/Keep.antt =====
-- Each operation of the payments service keeps the table well formed and evolving.
use mix_match_onchain.Base.{String, Bool, true, false, Option, none, some, List, ◌≡◌, refl, arith}
use mix_match_onchain.Exec.{Result, ok, err}
use mix_match_onchain.Exec.Rules.{
  Ensures, Ensures-bind, Ensures-try, Ensures-throw, Ensures-pure, Ensures-Keeps,
}
use mix_match_onchain.Error.{Error, duplicate_idempotency_key}
use mix_match_onchain.Env.{Env}
use mix_match_onchain.Env.Sdk.{SubmitResult}
use mix_match_onchain.Stellar.Net.{Net}
use mix_match_onchain.Api.Rows.{
  Transaction, TransactionStatus, pending, pending_signature, success, failed, World,
}
use mix_match_onchain.Api.Store.{net}
use mix_match_onchain.Api.Store.Rules.{Ensures-net}
use mix_match_onchain.Api.Transactions.{NewTransaction}
use mix_match_onchain.Api.Custody.{fail_payment}
use mix_match_onchain.Api.Send
use mix_match_onchain.Api.Send.{Opening, fresh, repeated, succeeded, failed_by, settle}
use mix_match_onchain.Api.Ledger.Sound.{is_settled, reaches}
use mix_match_onchain.Api.Ledger.Update.{
  Since, Open, IsAllowed, OnTables-Open, Updated, Ensures-update_status,
}
use mix_match_onchain.Api.Ledger.Lookup.{
  Created, initial, Ensures-create, Keeps-find_by_idempotency_key,
}

-- How a submission may be settled: the rows are not settled yet, and a co-signed one clears its
-- envelope.
pub record Settles (s : TransactionStatus) (clear : Bool) : Type 0 where
  pub unsettled : is_settled s ≡ false
  pub clears : s ≡ pending_signature → clear ≡ true

pub ordinary : Settles pending false
ordinary = record { unsettled = refl; clears = ground arith }

pub co_signed : Settles pending_signature true
co_signed = record { unsettled = refl; clears = λ _. refl }

reaches-success : (s : TransactionStatus) → is_settled s ≡ false → reaches s success ≡ true
reaches-success s h = ground arith

reaches-failed : (s : TransactionStatus) → is_settled s ≡ false → reaches s failed ≡ true
reaches-failed s h = ground arith

module _ {s : TransactionStatus} {clear : Bool} (how : Settles s clear) where
  succeeded-IsAllowed : (hash : String) → IsAllowed s (succeeded hash clear)
  succeeded-IsAllowed hash = record {
    unsettled = how.unsettled;
    settles = refl;
    moves = reaches-success s how.unsettled;
    clears = how.clears;
    hashed = λ _. refl;
    explained = ground arith;
  }

  failed_by-IsAllowed : (e : Error) → IsAllowed s (failed_by e clear)
  failed_by-IsAllowed e = record {
    unsettled = how.unsettled;
    settles = refl;
    moves = reaches-failed s how.unsettled;
    clears = how.clears;
    hashed = ground arith;
    explained = λ _. refl;
  }

module _ (env : Env) (rows : List Transaction) where
  pub Since-Updated :
      (id : String) (s : TransactionStatus) (r : Result Error Transaction) (w : World)
      → Updated env rows id s r w
      → Since rows w
  Since-Updated id s (ok row) w h = h
  Since-Updated id s (err e) w h = h.since

  Ensures-record_failure :
      {s : TransactionStatus} {clear : Bool}
      → Settles s clear
      → (id : String) (error : Error)
      → Ensures (Open rows id s) (Send.record_failure env id clear error) (λ _ w. Since rows w)
  unfolding Send.record_failure fail_payment
  Ensures-record_failure {s} {clear} how id error =
      Ensures-bind (Updated env rows id s) _ _
        (Ensures-update_status env rows id s (failed_by error clear)
          (failed_by-IsAllowed how error))
        (λ row. Ensures-throw _ (λ w h. h)) (λ e w h. h.since)

  -- A submission that is settled leaves the invariant, whatever it answers.
  pub Ensures-settle :
      {s : TransactionStatus} {clear : Bool}
      → Settles s clear
      → (id : String) (m : Net SubmitResult)
      → Ensures (Open rows id s) (settle env id clear (net m)) (λ _ w. Since rows w)
  unfolding settle
  Ensures-settle {s} {clear} how id m =
      Ensures-try (Updated env rows id s) _ _
        (Ensures-bind (λ _ w. Open rows id s w) _ _ (Ensures-net (OnTables-Open env rows id s) m)
          (λ result.
            Ensures-update_status env rows id s (succeeded result.hash clear)
              (succeeded-IsAllowed how result.hash))
          (λ e w h. h))
        (Ensures-record_failure how id) (λ row w h. h)

  -- A new row is open, and a repeated key leaves the table alone.
  abbrev pub Opened : NewTransaction → Result Error Opening → World → Type 0
  Opened input (ok (fresh row)) w = Open rows row.id (initial input) w
  Opened input (ok (repeated row)) w = Since rows w
  Opened input (err e) w = Since rows w

  Ensures-repeated_or_throw :
      (input : NewTransaction) (error : Error) (found : Option Transaction)
      → Ensures (Since rows) (Send.repeated_or_throw env error found) (Opened input)
  unfolding Send.open_transaction
  Ensures-repeated_or_throw input error none = Ensures-throw error (λ w h. h)
  Ensures-repeated_or_throw input error (some row) = Ensures-pure (repeated row) (λ w h. h)

  Ensures-on_duplicate :
      (input : NewTransaction) (key : String) (error : Error)
      → Ensures (Since rows) (Send.on_duplicate env key error) (Opened input)
  unfolding Send.open_transaction
  Ensures-on_duplicate input key (duplicate_idempotency_key k) =
      Ensures-bind (λ _ w. Since rows w) _ _
        (Ensures-Keeps _ (Keeps-find_by_idempotency_key env rows key))
        (Ensures-repeated_or_throw input (duplicate_idempotency_key k)) (λ e w h. h)
  Ensures-on_duplicate input key error = Ensures-throw error (λ w h. h)

  pub Ensures-open_transaction :
      (input : NewTransaction)
      → Ensures (Since rows) (Send.open_transaction env input) (Opened input)
  unfolding Send.open_transaction
  Ensures-open_transaction input =
      Ensures-try (Opened input) _ _
        (Ensures-bind (Created env rows input) _ _ (Ensures-create env rows input)
          (λ row. Ensures-pure (fresh row) (λ w h. h)) (λ e w h. h))
        (λ e. Ensures-on_duplicate input input.idempotency_key e) (λ opening w h. h)
