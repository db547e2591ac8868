-- ===== src/Tests/Witnesses.antt =====
-- Each result, applied where its conditions hold.
use mix_match_onchain.Base.{
  ap, ◌+◌, ◌≤◌, Bool, true, false, Option, none, some, List, [], ◌∷◌, ◌≡◌, ◌⊎◌, inl, inr, refl,
  arith,
}
use mix_match_onchain.Exec.{Result, ok}
use mix_match_onchain.Error.{Error, bad_response, insufficient_balance}
use mix_match_onchain.Env.Sdk.{Envelope, PathRecord, SubmitResult, not_found}
use mix_match_onchain.Stellar.Errors.{classify}
use mix_match_onchain.Stellar.Quiet.{submissions}
use mix_match_onchain.Stellar.PathPayment.{
  find_strict_send_path, find_strict_receive_path, send_quote, receive_quote,
}
use mix_match_onchain.Stellar.Payment.{submit_payment}
use mix_match_onchain.Stellar.Contract.{poll_until, poll_rounds}
use mix_match_onchain.Stellar.Polling.{CountsWaits, poll_until-poll_rounds}
use mix_match_onchain.Stellar.Classified.{classify-first_known}
use mix_match_onchain.Stellar.Attempts.{submitted, submit_payment-at_most}
use mix_match_onchain.Stellar.Best.{
  IsOrder, Chosen, delivers_more, costs_less, find_strict_send_path-Chosen,
  find_strict_receive_path-Chosen,
}
use mix_match_onchain.Api.Rows.{TransactionStatus, success, failed, needs_review}
use mix_match_onchain.Api.Send.{send_payment, send_high_value_payment}
use mix_match_onchain.Api.Approval.{approve_pending_signature}
use mix_match_onchain.Api.Owned.{get_owned_transaction, reconcile_transaction_by_id}
use mix_match_onchain.Api.Ledger.Sound.{IsWellFormed, Evolves}
use mix_match_onchain.Api.Ledger.History.{
  Request, send, approve, reject, reconcile, serve_all, serve_all-Since,
}
use mix_match_onchain.Api.Repeat.{Repeated, send_payment-Repeated}
use mix_match_onchain.Api.Decide.{Refused, approve_pending_signature-Refused}
use mix_match_onchain.Api.Once.{approve_pending_signature-settled}
use mix_match_onchain.Api.Access.{
  OwnedOrError, Denied, get_owned_transaction-OwnedOrError, reconcile_transaction_by_id-foreign,
}
use mix_match_onchain.Api.EscrowService.{release_for_user, refund_for_user}
use mix_match_onchain.Api.Locked.{RefusedEscrow, sends, release_for_user-RefusedEscrow}
use mix_match_onchain.Api.Store.{App, net}
use mix_match_onchain.Stellar.Setup.{OnlySetup, KeepsOperations}
use mix_match_onchain.Api.HighValue.{send_high_value_payment-OnlySetup}
use mix_match_onchain.Tests.Outside.{
  env, world, to_bob, params, paid, closed, waiting, alice, routes,
}

abbrev day : List Request
day =
    send "alice" (to_bob (some "fresh key"))
    ∷ reconcile "alice" "waiting"
    ∷ reject "proposed"
    ∷ approve "proposed"
    ∷ []

abbrev is_failed : TransactionStatus → Bool
is_failed failed = true
is_failed _ = false

abbrev is_needs_review : TransactionStatus → Bool
is_needs_review needs_review = true
is_needs_review _ = false

not_failed :
    {P : Type 0} (s : TransactionStatus)
    → is_failed s ≡ false
    → is_needs_review s ≡ false
    → (s ≡ failed) ⊎ (s ≡ needs_review)
    → P
not_failed s f n (inl e) = cc
not_failed s f n (inr e) = cc

pending_ne : TransactionStatus.pending ≡ success → ⊥
pending_ne e = cc

pending_signature_ne : TransactionStatus.pending_signature ≡ success → ⊥
pending_signature_ne e = cc

world-IsWellFormed : IsWellFormed world
world-IsWellFormed = record {
  distinct = (refl, (refl, (refl, tt)));
  sound = (
    record { awaiting = refl; hashed = λ _. refl; explained = not_failed success refl refl },
    (
      record {
        awaiting = refl;
        hashed = λ h. absurd (pending_ne h);
        explained = not_failed TransactionStatus.pending refl refl;
      },
      (
        record {
          awaiting = refl;
          hashed = λ h. absurd (pending_signature_ne h);
          explained = not_failed TransactionStatus.pending_signature refl refl;
        },
        tt,
      ),
    ),
  );
}

env-IsOrder : IsOrder env
env-IsOrder = record {
  asym = λ x y p q h. ground arith;
  through = λ x y z p q r h k. ground arith;
  irrefl = λ x p. ground arith;
}

env-CountsWaits : CountsWaits env
env-CountsWaits = record { waited = λ t hash. omega arith }

poll_until-poll_rounds_example :
    poll_until env 100 "release" 0 "invoked" not_found []
    ≡ poll_until env poll_rounds "release" 0 "invoked" not_found []
poll_until-poll_rounds_example =
    poll_until-poll_rounds env "release" "invoked" 0 100 not_found [] env-CountsWaits (omega arith)
      (omega arith)

serve_all-Since_example :
    IsWellFormed (serve_all env day world)
    × Evolves world.transactions (serve_all env day world).transactions
serve_all-Since_example = serve_all-Since env day world world-IsWellFormed

approve_pending_signature-settled_example :
    Refused
      (serve_all env day world).transactions
      (submissions (serve_all env day world).trace)
      (approve_pending_signature env "paid" (serve_all env day world)).0
      (approve_pending_signature env "paid" (serve_all env day world)).1
approve_pending_signature-settled_example =
    approve_pending_signature-settled env world day "paid" paid world-IsWellFormed refl refl

send_payment-Repeated_example :
    Repeated world.transactions
      (submissions world.trace)
      paid
      (send_payment env "bob" (to_bob (some "key of paid")) world).0
      (send_payment env "bob" (to_bob (some "key of paid")) world).1
send_payment-Repeated_example =
    send_payment-Repeated env world "bob" "key of paid" (to_bob (some "key of paid")) paid refl refl

approve_pending_signature-Refused_example :
    Refused world.transactions
      (submissions world.trace)
      (approve_pending_signature env "waiting" world).0
      (approve_pending_signature env "waiting" world).1
approve_pending_signature-Refused_example =
    approve_pending_signature-Refused env world "waiting" waiting refl refl

get_owned_transaction-OwnedOrError_example :
    OwnedOrError world "alice" "paid"
      (get_owned_transaction env "alice" "paid" world).0
      (get_owned_transaction env "alice" "paid" world).1
get_owned_transaction-OwnedOrError_example =
    get_owned_transaction-OwnedOrError env world "alice" "paid"

reconcile_transaction_by_id-foreign_example :
    Denied world
      (reconcile_transaction_by_id env "bob" "waiting" world).0
      (reconcile_transaction_by_id env "bob" "waiting" world).1
reconcile_transaction_by_id-foreign_example =
    reconcile_transaction_by_id-foreign env world "bob" "waiting" waiting alice refl refl refl

submit_payment-at_most_example :
    submitted (submit_payment env params []).1 ≤ env.max_sequence_attempts + submitted []
submit_payment-at_most_example = submit_payment-at_most env params [] (omega arith)

find_strict_send_path-Chosen_example :
    (chosen : Option PathRecord) × ((find_strict_send_path env none none "5" []).0
      ≡ ok (send_quote env none none "5" chosen))
    × Chosen (delivers_more env) routes chosen
find_strict_send_path-Chosen_example =
    find_strict_send_path-Chosen env none none "5" [] routes env-IsOrder (refl, (refl, tt)) refl

find_strict_receive_path-Chosen_example :
    (chosen : Option PathRecord) × ((find_strict_receive_path env none none "5" []).0
      ≡ ok (receive_quote env none none "5" chosen))
    × Chosen (costs_less env) routes chosen
find_strict_receive_path-Chosen_example =
    find_strict_receive_path-Chosen env none none "5" [] routes env-IsOrder (refl, (refl, tt)) refl

classify-first_known_example :
    classify (
      bad_response "rejected" (
        some (record {
          transaction = some "tx_failed";
          operations = some ("op_inner" ∷ "op_underfunded" ∷ "op_no_trust" ∷ []);
        })))
    ≡ record {
      kind = insufficient_balance;
      message = "Payment operation failed: op_underfunded";
      transaction_code = some "tx_failed";
      operation_codes = some ("op_inner" ∷ "op_underfunded" ∷ "op_no_trust" ∷ []);
      tx_hash = none;
      envelope_xdr = none;
    }
classify-first_known_example =
    classify-first_known "rejected" (some "tx_failed") ("op_inner" ∷ []) "op_underfunded"
      insufficient_balance ("op_no_trust" ∷ []) (refl, tt) refl

release_for_user-RefusedEscrow_example :
    RefusedEscrow world.escrows
      (sends world.trace)
      (release_for_user env "alice" "closed" world).0
      (release_for_user env "alice" "closed" world).1
    × RefusedEscrow world.escrows
        (sends world.trace)
        (refund_for_user env "alice" "closed" world).0
        (refund_for_user env "alice" "closed" world).1
release_for_user-RefusedEscrow_example =
    release_for_user-RefusedEscrow env world "alice" "closed" closed refl refl

abbrev pay : App SubmitResult
pay = net (submit_payment env params)

abbrev Answer : Type 0
Answer = Result Error Envelope

same_ok : (a b : Envelope) → ◌≡◌ {A = Answer} (ok a) (ok b) → b ≡ a
same_ok a b e = cc

env-KeepsOperations : KeepsOperations env
env-KeepsOperations = record {
  built = λ e e' h. ap (λ (x : Envelope). x.operations) (same_ok e e' h);
  signed = λ e e' key signature h. ap (λ (x : Envelope). x.operations) (same_ok e e' h);
}

send_high_value_payment-OnlySetup_example :
    OnlySetup
      (submissions world.trace)
      (send_high_value_payment env alice (to_bob none) "fresh key" world).1.trace
send_high_value_payment-OnlySetup_example =
    send_high_value_payment-OnlySetup env world alice (to_bob none) "fresh key" env-KeepsOperations
