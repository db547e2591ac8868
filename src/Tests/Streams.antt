-- ===== src/Tests/Streams.antt =====
-- The results on the two streams, applied where their conditions hold.
use mathlib.Core.Path.{subst}
use mix_match_onchain.Base.{
  ℕ, zero, suc, true, false, String, Option, none, some, List, [], ◌∷◌, ◌++◌, ◌≡◌, refl, map, Text,
  codes, starts_with, take, drop, arith, is_truthy, ◌==◌, if◌then◌else◌, same_some, none_ne,
}
use mix_match_onchain.Mobile.Stream.{Payload, Signal, fresh, pump, failed}
use mix_match_onchain.Mobile.Frames.{collect}
use mix_match_onchain.Mobile.Delivery.{pump-chunks}
use mix_match_onchain.Mobile.Printed.{print_events, printed, carried, pump-print}
use mix_match_onchain.Stellar.Streaming.{
  RawPaymentRecord, Subscription, subscribe, close, connect, on_message, on_error, Reach, here,
  next, message, failure, timer, closing,
}
use mix_match_onchain.Stellar.Streaming.Phases.{Phase, Reach-Phase, closed-log}
use mix_match_onchain.Stellar.Streaming.Gapless.{
  Resumes, delivered, served, events, Reach-delivered,
}

abbrev payment : Payload ℕ
payment = record { event_type = none; transaction = some 7; payload_data = none }

abbrev heartbeat : Payload ℕ
heartbeat = record { event_type = some "heartbeat"; transaction = none; payload_data = none }

abbrev json_of : Option String → Text
json_of none = codes "{payment}"
json_of (some event_type) = codes "{heartbeat}"

abbrev stringify : Payload ℕ → Text
stringify payload = json_of payload.event_type

abbrev parse : Text → Option (Payload ℕ)
parse text = some (if starts_with text (codes "{p") then payment else heartbeat)

-- Two payments and a heartbeat, the first with its number in a line before.
abbrev sent : List (List Text × Payload ℕ)
sent = (codes "id: 1" ∷ [], payment) ∷ (([], heartbeat) ∷ (([], payment) ∷ []))

abbrev stream_text : Text
stream_text = print_events (map (printed parse stringify) sent)

-- The text in two chunks, the first of which ends inside an event.
abbrev halves : List Text
halves = take 9 stream_text ∷ drop 9 stream_text ∷ []

pump-print_example :
    pump {E = ℕ} parse (map Signal.value halves) fresh
    ≡ record fresh { delivered = collect (carried parse stringify) sent }
pump-print_example =
    pump-print parse stringify sent halves
      (
        (refl, ground arith, (((ground arith, refl)), tt)),
        ((refl, ground arith, tt), ((refl, ground arith, tt), tt)),
      )
      refl

pump-chunks_example :
    pump {E = ℕ} parse (map Signal.value halves ++ failed 5 ∷ []) fresh
    ≡ pump {E = ℕ} parse (map Signal.value (stream_text ∷ []) ++ failed 5 ∷ []) fresh
pump-chunks_example = pump-chunks parse halves (stream_text ∷ []) (failed 5 ∷ []) refl

record_of : String → RawPaymentRecord
record_of token = record {
  id = token;
  paging_token = token;
  type = "payment";
  to = none;
  from = none;
  amount = none;
  asset_type = none;
  asset_code = none;
  asset_issuer = none;
  transaction_hash = token;
  created_at = token;
}

-- The account's records, with the tokens 1 and 2.
abbrev raws : List RawPaymentRecord
raws = record_of "1" ∷ record_of "2" ∷ []

-- Where Horizon starts a stream: the first live one before both records, a later one after them.
abbrev start : ℕ → Option String → ℕ
start zero none = 0
start (suc n) none = 2
start n (some token) = if token == "1" then 1 else 2

resumes_at :
    (k : ℕ) (r raw : RawPaymentRecord)
    → r ≡ raw
    → (is_truthy r.paging_token ≡ true) × ((n : ℕ) → start n (some r.paging_token) ≡ suc k)
    → (is_truthy raw.paging_token ≡ true) × ((n : ℕ) → start n (some raw.paging_token) ≡ suc k)
resumes_at k r raw e h =
    subst
      (λ x. (is_truthy x.paging_token ≡ true) × ((n : ℕ) → start n (some x.paging_token) ≡ suc k)) e
      h

first_start : (n : ℕ) → start n (some "1") ≡ 1
first_start zero = refl
first_start (suc n) = refl

second_start : (n : ℕ) → start n (some "2") ≡ 2
second_start zero = refl
second_start (suc n) = refl

resumes : Resumes start raws
unfolding record_of
resumes zero raw e = resumes_at 0 (record_of "1") raw (same_some _ _ e) (refl, first_start)
resumes (suc zero) raw e = resumes_at 1 (record_of "2") raw (same_some _ _ e) (refl, second_start)
resumes (suc (suc k)) raw e = absurd (none_ne raw e)

-- Live: a payment arrives, the connection is lost and opened again, and the next payment arrives.
abbrev first_event : Subscription
first_event =
    on_message (record_of "1")
      (record (subscribe start raws none) { streams = record { number = 0; position = 1 } ∷ [] })

abbrev reconnected : Subscription
reconnected = connect start raws (record (on_error false first_event) { armed = false })

abbrev second_event : Subscription
second_event =
    on_message (record_of "2")
      (record reconnected { streams = record { number = 1; position = 2 } ∷ [] })

abbrev run : Reach start raws (subscribe start raws none) second_event
unfolding connect on_message on_error record_of
run =
    next
      (next
        (next
          (next here (message 0 (record { number = 0; position = 0 }) (record_of "1") refl refl))
          (failure 0 (record { number = 0; position = 1 }) false refl))
        (timer refl))
      (message 1 (record { number = 1; position = 1 }) (record_of "2") refl refl)

-- From the first record's token: the connection is lost and opened again, and the second record
-- arrives.
abbrev from_first : Subscription
from_first = subscribe start raws (some (record_of "1").paging_token)

abbrev again : Subscription
again = connect start raws (record (on_error false from_first) { armed = false })

abbrev resumed : Subscription
resumed =
    on_message (record_of "2") (record again { streams = record { number = 1; position = 2 } ∷ [] })

abbrev resumed_run : Reach start raws from_first resumed
unfolding connect on_message on_error record_of
resumed_run =
    next
      (next (next here (failure 0 (record { number = 0; position = 1 }) false refl)) (timer refl))
      (message 1 (record { number = 1; position = 1 }) (record_of "2") refl refl)

Reach-delivered_example : delivered resumed.log ≡ served raws 1 (events resumed.log)
Reach-delivered_example =
    Reach-delivered start raws resumes 0 (record_of "1") refl resumed resumed_run

Reach-Phase_example : Phase second_event
Reach-Phase_example = Reach-Phase start raws none second_event run

closed-log_example :
    ((close (close second_event)).streams ≡ [])
    × ((close (close second_event)).armed ≡ false)
    × ((close (close second_event)).log ≡ second_event.log)
closed-log_example = closed-log start raws none run (next here closing)
