-- ===== src/Tests/Updates.antt =====
-- The results on subscriptions to the caller's transactions, applied where their conditions hold.
use mix_match_onchain.Base.{none, some, Option, [], refl}
use mix_match_onchain.Exec.{Result, ok}
use mix_match_onchain.Error.{Error}
use mix_match_onchain.Stellar.Streaming.{PaymentStreamEvent}
use mix_match_onchain.Api.Rows.{Transaction}
use mix_match_onchain.Api.Store.{statement}
use mix_match_onchain.Api.Accounts
use mix_match_onchain.Api.Reconcile.{resolve_stream_event}
use mix_match_onchain.Api.Updates
use mix_match_onchain.Api.Updates.{
  stream_transaction_updates, on_account, on_event, on_resolved, unsubscribe,
}
use mix_match_onchain.Api.Updates.Quiet.{Quiet, rows, unsubscribed-Quiet}
use mix_match_onchain.Tests.Outside.{env, world, alice}

abbrev payment_event : PaymentStreamEvent
payment_event = record {
  id = "1";
  paging_token = "1";
  type = "payment";
  to = some "GBOB";
  from = some "GALICE";
  amount = some "5";
  asset_type = some "native";
  asset_code = none;
  asset_issuer = none;
  transaction_hash = "hash";
  created_at = "2026-01-01";
}

-- The account is found, an event arrives, the subscription ends, and only then is the event resolved.
abbrev watching : Updates.Updates
watching =
    on_account (ok (some alice))
      (record (stream_transaction_updates env "alice" world) { lookup = none })

abbrev stopped : Updates.Updates
stopped = unsubscribe (on_event env alice payment_event watching)

abbrev resolution : Result Error (Option Transaction)
resolution = (resolve_stream_event env alice.id payment_event watching.world).0

abbrev late : Updates.Updates
late = on_resolved resolution (record stopped { resolving = [] })

abbrev until_stopped : Updates.Reach env (stream_transaction_updates env "alice" world) stopped
unfolding stream_transaction_updates on_account Accounts.find_by_user_id statement
until_stopped =
    Updates.Reach.next
      (Updates.Reach.next
        (Updates.Reach.next Updates.Reach.here (Updates.◌⟶◌.account (ok (some alice)) refl))
        (Updates.◌⟶◌.event alice payment_event refl refl))
      Updates.◌⟶◌.ending

abbrev afterwards : Updates.Reach env stopped late
unfolding stream_transaction_updates on_account on_event unsubscribe
afterwards = Updates.Reach.next Updates.Reach.here (Updates.◌⟶◌.resolved resolution [] [] refl)

unsubscribed-Quiet_example : Quiet (rows stopped.told) late
unfolding unsubscribe
unsubscribed-Quiet_example = unsubscribed-Quiet env "alice" world until_stopped refl afterwards
