-- ===== src/Stellar/Streaming.antt =====
-- packages/stellar/src/streaming.ts: an account's payment stream with reconnection. Horizon's part
-- is a list of the account's records and the position that it starts a stream at.
pub mod Phases
pub mod Gapless
use mix_match_onchain.Base.{
  ℕ, zero, suc, String, Bool, true, false, not, Option, none, some, List, [], ◌∷◌, ◌≡◌, truthy,
  same_code, find, select, update_where, if◌then◌else◌,
}

-- `RawPaymentRecord`
pub record RawPaymentRecord : Type 0 where
  pub id : String
  pub paging_token : String
  pub type : String
  pub to : Option String
  pub from : Option String
  pub amount : Option String
  pub asset_type : Option String
  pub asset_code : Option String
  pub asset_issuer : Option String
  pub transaction_hash : String
  pub created_at : String

-- `PaymentStreamEvent`
pub record PaymentStreamEvent : Type 0 where
  pub id : String
  pub paging_token : String
  pub type : String
  pub to : Option String
  pub from : Option String
  pub amount : Option String
  pub asset_type : Option String
  pub asset_code : Option String
  pub asset_issuer : Option String
  pub transaction_hash : String
  pub created_at : String

-- `toPaymentStreamEvent`
abbrev pub to_payment_stream_event : RawPaymentRecord → PaymentStreamEvent
to_payment_stream_event raw = record {
  id = raw.id;
  paging_token = raw.paging_token;
  type = raw.type;
  to = raw.to;
  from = raw.from;
  amount = raw.amount;
  asset_type = raw.asset_type;
  asset_code = raw.asset_code;
  asset_issuer = raw.asset_issuer;
  transaction_hash = raw.transaction_hash;
  created_at = raw.created_at;
}

-- A stream that Horizon serves, and the record that it sends next.
pub record Stream : Type 0 where
  pub number : ℕ
  pub position : ℕ

-- What the subscription did: a stream opened with its cursor, an event handed to `onEvent`, an
-- error handed to `onError`.
pub data Entry : Type 0 where
  opened : Option String → Entry
  event : PaymentStreamEvent → Entry
  error : Entry

-- The variables of `streamAccountPayments`: `current` is the stream that `closeCurrentStream` closes,
-- `armed` says whether the timer is set. `streams` are those not closed yet, `count` numbers them,
-- and `log` has the latest entry first.
pub record Subscription : Type 0 where
  pub closed : Bool
  pub last_paging_token : Option String
  pub current : Option ℕ
  pub armed : Bool
  pub streams : List Stream
  pub count : ℕ
  pub log : List Entry

-- `if (lastPagingToken) callBuilder.cursor(lastPagingToken)`
abbrev pub cursor_of : Option String → Option String
cursor_of token = if truthy token then token else none

abbrev pub numbered : ℕ → Stream → Bool
numbered n stream = same_code stream.number n

-- `closeCurrentStream?.()`
abbrev pub close_stream : Option ℕ → List Stream → List Stream
close_stream none streams = streams
close_stream (some n) streams = select (λ stream. not (numbered n stream)) streams

-- The handle's `close`.
unfoldable pub close : Subscription → Subscription
close s = record s { closed = true; armed = false; streams = close_stream s.current s.streams }

-- `onmessage`
unfoldable pub on_message : RawPaymentRecord → Subscription → Subscription
on_message raw s = record s {
  last_paging_token = some (to_payment_stream_event raw).paging_token;
  log = event (to_payment_stream_event raw) ∷ s.log;
}

-- `onerror`; `closes` says whether `onError` calls `close`.
unfoldable pub on_error : Bool → Subscription → Subscription
on_error closes s =
    let reported = record s { log = error ∷ s.log } in
    let told = if closes then close reported else reported in
    record told {
      streams = close_stream told.current told.streams;
      armed = if told.closed then told.armed else true;
    }

-- A record was sent.
abbrev pub advance : Stream → Stream
advance stream = record stream { position = suc stream.position }

-- The record at a position.
abbrev pub record_at : List RawPaymentRecord → ℕ → Option RawPaymentRecord
record_at [] n = none
record_at (raw ∷ raws) zero = some raw
record_at (raw ∷ raws) (suc n) = record_at raws n

-- The variables as they are declared.
abbrev pub unopened : Option String → Subscription
unopened cursor = record {
  closed = false;
  last_paging_token = cursor;
  current = none;
  armed = false;
  streams = [];
  count = 0;
  log = [];
}

-- `start n` is where Horizon starts the stream with the number `n`, by its cursor: a stream without
-- one starts live, where the account's records are by then. `raws` are these records.
module _ (start : ℕ → Option String → ℕ) (raws : List RawPaymentRecord) where
  -- `connect`
  unfoldable pub connect : Subscription → Subscription
  connect s = if s.closed then s else record s {
    current = some s.count;
    streams =
        record { number = s.count; position = start s.count (cursor_of s.last_paging_token) }
        ∷ s.streams;
    count = suc s.count;
    log = opened (cursor_of s.last_paging_token) ∷ s.log;
  }

  -- `streamAccountPayments`
  abbrev pub subscribe : Option String → Subscription
  subscribe cursor = connect (unopened cursor)

  -- One callback of Horizon's stream, of the timer or of the caller.
  infix 4 ◌⟶◌
  pub data ◌⟶◌ (s : Subscription) : Subscription → Type 0 where
    message :
        (n : ℕ) (stream : Stream) (raw : RawPaymentRecord)
        → find (numbered n) s.streams ≡ some stream
        → record_at raws stream.position ≡ some raw
        → s ⟶ on_message raw (record s { streams = update_where (numbered n) advance s.streams })
    failure :
        (n : ℕ) (stream : Stream) (closes : Bool)
        → find (numbered n) s.streams ≡ some stream
        → s ⟶ on_error closes s
    timer : s.armed ≡ true → s ⟶ connect (record s { armed = false })
    closing : s ⟶ close s

  pub data Reach (s : Subscription) : Subscription → Type 0 where
    here : Reach s s
    next : {t u : Subscription} → Reach s t → t ⟶ u → Reach s u
