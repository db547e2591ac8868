-- ===== src/Api/Updates.antt =====
-- apps/api/src/modules/payments/payments.service.ts, `streamTransactionUpdates`: a subscription to
-- the changes of the caller's transactions, as a step relation over its promises and callbacks.
pub mod Quiet
use mix_match_onchain.Base.{
  String, Bool, true, false, not, ◌≡◌, Option, none, some, List, [], ◌∷◌, ◌++◌, if◌then◌else◌,
}
use mix_match_onchain.Exec.{Result, ok, err}
use mix_match_onchain.Error.{Error}
use mix_match_onchain.Env.{Env}
use mix_match_onchain.Stellar.Streaming.{PaymentStreamEvent}
use mix_match_onchain.Api.Rows.{Account, Transaction, World}
use mix_match_onchain.Api.Accounts
use mix_match_onchain.Api.Reconcile.{resolve_stream_event}

-- A call on the subscriber: `next`, `error` and `complete`.
pub data Told : Type 0 where
  handed : Transaction → Told
  reported : Error → Told
  completed : Told

-- `unsubscribed` and `handle`, by the account that it follows, with whether it is still open (`is_open`); the
-- promises that have not been told of, of the account and of the events; the calls on the
-- subscriber, the latest first; and the rest of the API.
pub record Updates : Type 0 where
  pub unsubscribed : Bool
  pub handle : Option Account
  pub is_open : Bool
  pub lookup : Option (Result Error (Option Account))
  pub resolving : List (Result Error (Option Transaction))
  pub told : List Told
  pub world : World

-- The function that the observable returns.
unfoldable pub unsubscribe : Updates → Updates
unsubscribe s = record s { unsubscribed = true; is_open = false }

-- `subscriber.error` and `subscriber.complete`, after which RxJS calls that function.
abbrev pub conclude : Told → Updates → Updates
conclude call s = unsubscribe (record s { told = call ∷ s.told })

-- The callbacks of the promise of the account.
unfoldable pub on_account : Result Error (Option Account) → Updates → Updates
on_account (err e) s = conclude (reported e) s
on_account (ok none) s = if s.unsubscribed then s else conclude completed s
on_account (ok (some account)) s =
    if s.unsubscribed then s else record s { handle = some account; is_open = true }

-- The callbacks of the promise of an event.
unfoldable pub on_resolved : Result Error (Option Transaction) → Updates → Updates
on_resolved (err e) s = conclude (reported e) s
on_resolved (ok none) s = s
on_resolved (ok (some updated)) s =
    if not s.unsubscribed then record s { told = handed updated ∷ s.told } else s

module _ (env : Env) where
  -- `onEvent`, up to the promise that it leaves
  unfoldable pub on_event : Account → PaymentStreamEvent → Updates → Updates
  on_event account event s =
      let outcome = resolve_stream_event env account.id event s.world in
      record s { resolving = outcome.0 ∷ s.resolving; world = outcome.1 }

  -- `streamTransactionUpdates`, subscribed to
  unfoldable pub stream_transaction_updates : String → World → Updates
  stream_transaction_updates user_id w =
      let outcome = Accounts.find_by_user_id env user_id w in
      record {
        unsubscribed = false;
        handle = none;
        is_open = false;
        lookup = some outcome.0;
        resolving = [];
        told = [];
        world = outcome.1;
      }

  -- A callback, the end of the subscription, or any other request to the API.
  infix 4 ◌⟶◌
  pub data ◌⟶◌ (s : Updates) : Updates → Type 0 where
    account :
        (r : Result Error (Option Account))
        → s.lookup ≡ some r
        → s ⟶ on_account r (record s { lookup = none })
    event :
        (followed : Account) (payment : PaymentStreamEvent)
        → s.handle ≡ some followed
        → s.is_open ≡ true
        → s ⟶ on_event followed payment s
    resolved :
        (r : Result Error (Option Transaction))
        (before after : List (Result Error (Option Transaction)))
        → s.resolving ≡ before ++ r ∷ after
        → s ⟶ on_resolved r (record s { resolving = before ++ after })
    ending : s ⟶ unsubscribe s
    elsewhere : (w : World) → s ⟶ record s { world = w }

  pub data Reach (s : Updates) : Updates → Type 0 where
    here : Reach s s
    next : {t u : Updates} → Reach s t → t ⟶ u → Reach s u
