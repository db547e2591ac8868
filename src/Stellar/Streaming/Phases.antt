-- ===== src/Stellar/Streaming/Phases.antt =====
-- The phases of a payment stream (packages/stellar/src/streaming.ts): connected, waiting for the
-- timer, or closed.
use mix_match_onchain.Base.{
  ℕ, String, Bool, true, false, Option, none, some, List, [], ◌∷◌, ◌≡◌, refl, arith, same_code,
  find, update_where, ap, sym, ◌∙◌, none_ne, true_ne, if◌then◌else◌,
}
use mix_match_onchain.Stellar.Streaming.{
  Stream, Subscription, RawPaymentRecord, numbered, cursor_of, unopened, advance, close,
  close_stream, on_message, on_error, connect, subscribe, ◌⟶◌, Reach, message, failure, timer,
  closing, here, next,
}

-- One stream is open and no timer is set; or none is open and the timer is set; or neither, after
-- `close`.
pub data Phase (s : Subscription) : Type 0 where
  connected :
      (stream : Stream)
      → s.closed ≡ false
      → s.armed ≡ false
      → s.streams ≡ stream ∷ []
      → s.current ≡ some stream.number
      → Phase s
  waiting : s.closed ≡ false → s.armed ≡ true → s.streams ≡ [] → Phase s
  ended : s.closed ≡ true → s.armed ≡ false → s.streams ≡ [] → Phase s

pub same_self : (n : ℕ) → same_code n n ≡ true
same_self n = ground arith

pub close_nothing : (o : Option ℕ) → close_stream o [] ≡ []
close_nothing none = refl
close_nothing (some n) = refl

close_only :
    (o : Option ℕ) (stream : Stream) → o ≡ some stream.number → close_stream o (stream ∷ []) ≡ []
close_only o stream e = rw e (rw (same_self stream.number) refl)

pub close_empties : (s : Subscription) → Phase s → close_stream s.current s.streams ≡ []
close_empties s (connected stream c a e f) = rw e (close_only s.current stream f)
close_empties s (waiting c a e) = rw e (close_nothing s.current)
close_empties s (ended c a e) = rw e (close_nothing s.current)

pub close-Phase : (s : Subscription) → Phase s → Phase (close s)
unfolding close
close-Phase s h = ended refl refl (close_empties s h)

same_number :
    (n : ℕ) (stream : Stream)
    → (if numbered n stream then advance stream else stream).number ≡ stream.number
same_number n stream = ground arith

message-Phase :
    (s : Subscription) (n : ℕ) (raw : RawPaymentRecord)
    → Phase s
    → Phase (on_message raw (record s { streams = update_where (numbered n) advance s.streams }))
unfolding on_message
message-Phase s n raw (connected stream c a e f) =
    connected (if numbered n stream then advance stream else stream) c a
      (ap (update_where (numbered n) advance) e) (f ∙ ap some (sym (same_number n stream)))
message-Phase s n raw (waiting c a e) = waiting c a (ap (update_where (numbered n) advance) e)
message-Phase s n raw (ended c a e) = ended c a (ap (update_where (numbered n) advance) e)

pub found_none :
    (n : ℕ) (stream : Stream) (streams : List Stream)
    → streams ≡ []
    → find (numbered n) streams ≡ some stream
    → ⊥
found_none n stream streams e f = none_ne stream (rw e at f)

error-Phase :
    (s : Subscription) (closes : Bool) → s.closed ≡ false → Phase s → Phase (on_error closes s)
unfolding on_error close
error-Phase s true c h = ended refl refl (rw (close_empties s h) (close_nothing s.current))
error-Phase s false c h = waiting c (rw c refl) (close_empties s h)

pub open_closed :
    (s : Subscription) (n : ℕ) (stream : Stream)
    → find (numbered n) s.streams ≡ some stream
    → Phase s
    → s.closed ≡ false
open_closed s n stream found (connected other c a e f) = c
open_closed s n stream found (waiting c a e) = c
open_closed s n stream found (ended c a e) = absurd (found_none n stream s.streams e found)

module _ (start : ℕ → Option String → ℕ) (raws : List RawPaymentRecord) where
  connect-Phase :
      (s : Subscription)
      → s.closed ≡ false
      → s.streams ≡ []
      → Phase (connect start raws (record s { armed = false }))
  unfolding connect
  connect-Phase s c e = rw c (
      connected _ refl refl
        (ap
          (λ l.
            record { number = s.count; position = start s.count (cursor_of s.last_paging_token) }
            ∷ l)
          e)
        refl)

  timer-Phase :
      (s : Subscription)
      → s.armed ≡ true
      → Phase s
      → Phase (connect start raws (record s { armed = false }))
  timer-Phase s t (connected stream c a e f) = absurd (true_ne s.armed t a)
  timer-Phase s t (waiting c a e) = connect-Phase s c e
  timer-Phase s t (ended c a e) = absurd (true_ne s.armed t a)

  pub step-Phase : {s t : Subscription} → ◌⟶◌ start raws s t → Phase s → Phase t
  step-Phase {s = s} (message n stream raw found sent) h = message-Phase s n raw h
  step-Phase {s = s} (failure n stream closes found) h =
      error-Phase s closes (open_closed s n stream found h) h
  step-Phase {s = s} (timer t) h = timer-Phase s t h
  step-Phase {s = s} closing h = close-Phase s h

  not_armed : (s : Subscription) → s.closed ≡ true → Phase s → s.armed ≡ false
  not_armed s t (connected stream c a e f) = a
  not_armed s t (waiting c a e) = absurd (true_ne s.closed t c)
  not_armed s t (ended c a e) = a

  ended-log :
      {s t : Subscription}
      → ◌⟶◌ start raws s t
      → s.closed ≡ true
      → Phase s
      → (t.closed ≡ true) × (t.log ≡ s.log)
  unfolding close
  ended-log {s = s} (message n stream raw found sent) c h =
      absurd (true_ne s.closed c (open_closed s n stream found h))
  ended-log {s = s} (failure n stream closes found) c h =
      absurd (true_ne s.closed c (open_closed s n stream found h))
  ended-log {s = s} (timer t) c h = absurd (true_ne s.armed t (not_armed s c h))
  ended-log {s = s} closing c h = (refl, refl)

  pub later-Phase : {s t : Subscription} → Reach start raws s t → Phase s → Phase t
  later-Phase here h = h
  later-Phase (next r step) h = step-Phase step (later-Phase r h)

  ended-logs :
      {s t : Subscription}
      → Reach start raws s t
      → s.closed ≡ true
      → Phase s
      → (t.closed ≡ true) × (t.log ≡ s.log)
  ended-logs here c h = (c, refl)
  ended-logs (next r step) c h =
      let (c', e) = ended-logs r c h in
      let (c'', e') = ended-log step c' (later-Phase r h) in (c'', e' ∙ e)

  no_streams : (s : Subscription) → s.closed ≡ true → Phase s → s.streams ≡ []
  no_streams s t (connected stream c a e f) = absurd (true_ne s.closed t c)
  no_streams s t (waiting c a e) = e
  no_streams s t (ended c a e) = e

  -- A subscription, at any time: one open stream and no timer; or no stream and a timer; or, once it
  -- is closed, neither, so that no event arrives and nothing is opened any more.
  pub Reach-Phase :
      (cursor : Option String) (s : Subscription)
      → Reach start raws (subscribe start raws cursor) s
      → Phase s
  Reach-Phase cursor s r = later-Phase r (connect-Phase (unopened cursor) refl refl)

  -- Once the caller has closed a subscription, at any time, no stream is open and no timer is set,
  -- and whatever still comes, no event and no error is handed on and no stream is opened.
  pub closed-log :
      (cursor : Option String) {s t : Subscription}
      → Reach start raws (subscribe start raws cursor) s
      → Reach start raws (close s) t
      → (t.streams ≡ []) × (t.armed ≡ false) × (t.log ≡ s.log)
  unfolding close
  closed-log cursor {s = s} {t = t} before after =
      let h = close-Phase s (Reach-Phase cursor s before) in
      let (c, e) = ended-logs after refl h in
      let k = later-Phase after h in (no_streams t c k, not_armed t c k, e)
