-- ===== src/Stellar/Streaming/Gapless.antt =====
-- What the payment stream (packages/stellar/src/streaming.ts) delivers across reconnections, against
-- the account's records in their order.
use mix_match_onchain.Base.{
  ℕ, zero, suc, ◌+◌, String, Bool, true, false, Bool-cases, inl, inr, Option, some, List, [], ◌∷◌,
  ◌++◌, ◌≡◌, refl, sym, ap, ◌∙◌, map, arith, take, drop, find, update_where, is_truthy, none_ne,
  same_some, true_ne,
}
use mix_match_onchain.Stellar.Streaming.{
  Stream, Subscription, RawPaymentRecord, PaymentStreamEvent, Entry, opened, event, error,
  to_payment_stream_event, cursor_of, numbered, advance, record_at, close, on_message, on_error,
  connect, subscribe, ◌⟶◌, Reach, message, failure, timer, closing, here, next,
}
use mix_match_onchain.Stellar.Streaming.Phases.{
  Phase, Reach-Phase, connected, waiting, ended, later-Phase, close_empties, close_nothing,
  found_none,
}

-- The events handed to `onEvent`, oldest first.
abbrev pub delivered : List Entry → List PaymentStreamEvent
delivered [] = []
delivered (event e ∷ log) = delivered log ++ e ∷ []
delivered (opened cursor ∷ log) = delivered log
delivered (error ∷ log) = delivered log

-- The number of them.
abbrev pub events : List Entry → ℕ
events [] = 0
events (event e ∷ log) = suc (events log)
events (opened cursor ∷ log) = events log
events (error ∷ log) = events log

-- The first `n` records from position `p` on, as events.
abbrev pub served : List RawPaymentRecord → ℕ → ℕ → List PaymentStreamEvent
served raws p n = map to_payment_stream_event (take n (drop p raws))

take-record_at :
    (raws : List RawPaymentRecord) (n : ℕ) (raw : RawPaymentRecord)
    → record_at raws n ≡ some raw
    → take (suc n) raws ≡ take n raws ++ raw ∷ []
take-record_at [] n raw e = absurd (none_ne raw e)
take-record_at (r ∷ raws) zero raw e = ap (λ x. x ∷ []) (same_some r raw e)
take-record_at (r ∷ raws) (suc n) raw e = ap (λ l. r ∷ l) (take-record_at raws n raw e)

plus_zero : (p : ℕ) → p ≡ p + 0
plus_zero p = omega arith

zero_plus : (n : ℕ) → n ≡ 0 + n
zero_plus n = omega arith

suc_plus : (p n : ℕ) → suc (p + n) ≡ suc p + n
suc_plus p n = omega arith

plus_suc : (p n : ℕ) → suc (p + n) ≡ p + suc n
plus_suc p n = omega arith

record_at-drop :
    (raws : List RawPaymentRecord) (p n : ℕ) → record_at (drop p raws) n ≡ record_at raws (p + n)
record_at-drop raws zero n = ap (record_at raws) (zero_plus n)
record_at-drop [] (suc p) n = refl
record_at-drop (raw ∷ raws) (suc p) n =
    record_at-drop raws p n ∙ ap (record_at (raw ∷ raws)) (suc_plus p n)

map-append : {A B : Type 0} (f : A → B) (xs ys : List A) → map f (xs ++ ys) ≡ map f xs ++ map f ys
map-append f [] ys = refl
map-append f (x ∷ xs) ys = ap (λ l. f x ∷ l) (map-append f xs ys)

served-next :
    (raws : List RawPaymentRecord) (p n : ℕ) (raw : RawPaymentRecord)
    → record_at raws (p + n) ≡ some raw
    → served raws p (suc n) ≡ served raws p n ++ to_payment_stream_event raw ∷ []
served-next raws p n raw e =
    ap (map to_payment_stream_event)
      (take-record_at (drop p raws) n raw (record_at-drop raws p n ∙ e))
    ∙ map-append to_payment_stream_event (take n (drop p raws)) (raw ∷ [])

-- Horizon's part: a stream with a record's token as its cursor starts at the record after it,
-- whenever it is opened, and no token is empty. Of a stream without a cursor nothing is said.
abbrev pub Resumes : (ℕ → Option String → ℕ) → List RawPaymentRecord → Type 0
Resumes start raws =
    (k : ℕ) (raw : RawPaymentRecord)
    → record_at raws k ≡ some raw
    → (is_truthy raw.paging_token ≡ true) × ((n : ℕ) → start n (some raw.paging_token) ≡ suc k)

module _ {A : Type 0} where
  not_both : {xs ys : List A} {x : A} → xs ≡ [] → xs ≡ x ∷ ys → ⊥
  not_both e f = cc

  same_head : {xs ys : List A} {x y : A} → x ∷ xs ≡ y ∷ ys → x ≡ y
  same_head e = cc

-- The only open stream is the one that sends.
sole :
    (n : ℕ) (streams : List Stream) (only stream : Stream)
    → streams ≡ only ∷ []
    → find (numbered n) streams ≡ some stream
    → (numbered n only ≡ true) × (only ≡ stream)
sole n streams only stream e found = elim (Bool-cases (numbered n only)) [
  | inl t ↦ (t, same_some only stream (rw t at (rw e at found)))
  | inr f ↦ absurd (none_ne stream (rw f at (rw e at found)))
]

moved :
    (n : ℕ) (streams : List Stream) (only after : Stream) (k : ℕ)
    → streams ≡ only ∷ []
    → numbered n only ≡ true
    → only.position ≡ k
    → update_where (numbered n) advance streams ≡ after ∷ []
    → after.position ≡ suc k
moved n streams only after k e t pos h =
    sym (ap (λ st. st.position) (same_head (rw t at (rw e at h)))) ∙ ap (λ m. suc m) pos

token_start :
    (start : ℕ → Option String → ℕ) (token : String) (k : ℕ)
    → (is_truthy token ≡ true) × ((n : ℕ) → start n (some token) ≡ suc k)
    → (n : ℕ) → start n (cursor_of (some token)) ≡ suc k
token_start start token k h n = rw h.0 (h.1 n)

module _ (start : ℕ → Option String → ℕ) (raws : List RawPaymentRecord)
    (resumes : Resumes start raws) (p : ℕ) where
  -- The events so far are the records from `p` on, the open stream is at the next one, and so is a
  -- stream that would be opened now.
  pub record Gapless (s : Subscription) : Type 0 where
    pub so_far : delivered s.log ≡ served raws p (events s.log)
    pub at_next : (stream : Stream) → s.streams ≡ stream ∷ [] → stream.position ≡ p + events s.log
    pub resumed : (n : ℕ) → start n (cursor_of s.last_paging_token) ≡ p + events s.log

  close-Gapless : (s : Subscription) → Phase s → Gapless s → Gapless (close s)
  unfolding close
  close-Gapless s h g = record {
    so_far = g.so_far;
    at_next = λ stream e. absurd (not_both (close_empties s h) e);
    resumed = g.resumed;
  }

  error-Gapless :
      (s : Subscription) (closes : Bool) → Phase s → Gapless s → Gapless (on_error closes s)
  unfolding on_error close
  error-Gapless s true h g = record {
    so_far = g.so_far;
    at_next = λ stream e. absurd (not_both (rw (close_empties s h) (close_nothing s.current)) e);
    resumed = g.resumed;
  }
  error-Gapless s false h g = record {
    so_far = g.so_far;
    at_next = λ stream e. absurd (not_both (close_empties s h) e);
    resumed = g.resumed;
  }

  timer-Gapless :
      (s : Subscription)
      → s.armed ≡ true
      → Phase s
      → Gapless s
      → Gapless (connect start raws (record s { armed = false }))
  unfolding connect
  timer-Gapless s t (connected stream c a e f) g = absurd (true_ne s.armed t a)
  timer-Gapless s t (waiting c a e) g = rw c (record {
    so_far = g.so_far;
    at_next = λ stream e'. sym (ap (λ st. st.position) (same_head e')) ∙ g.resumed s.count;
    resumed = g.resumed;
  })
  timer-Gapless s t (ended c a e) g = absurd (true_ne s.armed t a)

  -- The only open stream sends its next record.
  advance-Gapless :
      (s : Subscription) (n : ℕ) (stream other : Stream) (raw : RawPaymentRecord)
      → s.streams ≡ other ∷ []
      → find (numbered n) s.streams ≡ some stream
      → record_at raws stream.position ≡ some raw
      → delivered s.log ≡ served raws p (events s.log)
      → other.position ≡ p + events s.log
      → Gapless
          (on_message raw (record s { streams = update_where (numbered n) advance s.streams }))
  unfolding on_message
  advance-Gapless s n stream other raw e found sent so_far at_next =
      let (test, same) = sole n s.streams other stream e found in
      let here = sym (ap (λ st. st.position) same) ∙ at_next in
      record {
        so_far =
            ap (λ l. l ++ to_payment_stream_event raw ∷ []) so_far
            ∙ sym (served-next raws p (events s.log) raw (ap (record_at raws) (sym here) ∙ sent));
        at_next = λ after e'.
            moved n s.streams other after (p + events s.log) e test at_next e'
            ∙ plus_suc p (events s.log);
        resumed = λ m.
            token_start start raw.paging_token (p + events s.log)
              (resumes (p + events s.log) raw (ap (record_at raws) (sym here) ∙ sent)) m
            ∙ plus_suc p (events s.log);
      }

  message-Gapless :
      (s : Subscription) (n : ℕ) (stream : Stream) (raw : RawPaymentRecord)
      → find (numbered n) s.streams ≡ some stream
      → record_at raws stream.position ≡ some raw
      → Phase s
      → Gapless s
      → Gapless
          (on_message raw (record s { streams = update_where (numbered n) advance s.streams }))
  message-Gapless s n stream raw found sent (connected other c a e f) g =
      advance-Gapless s n stream other raw e found sent g.so_far (g.at_next other e)
  message-Gapless s n stream raw found sent (waiting c a e) g =
      absurd (found_none n stream s.streams e found)
  message-Gapless s n stream raw found sent (ended c a e) g =
      absurd (found_none n stream s.streams e found)

  subscribe-Gapless :
      (cursor : Option String)
      → ((n : ℕ) → start n (cursor_of cursor) ≡ p)
      → Gapless (subscribe start raws cursor)
  unfolding connect
  subscribe-Gapless cursor e = record {
    so_far = refl;
    at_next = λ stream f. sym (ap (λ st. st.position) (same_head f)) ∙ e 0 ∙ plus_zero p;
    resumed = λ n. e n ∙ plus_zero p;
  }

  step-Gapless : {s t : Subscription} → ◌⟶◌ start raws s t → Phase s → Gapless s → Gapless t
  step-Gapless {s = s} (message n stream raw found sent) h g =
      message-Gapless s n stream raw found sent h g
  step-Gapless {s = s} (failure n stream closes found) h g = error-Gapless s closes h g
  step-Gapless {s = s} (timer t) h g = timer-Gapless s t h g
  step-Gapless {s = s} closing h g = close-Gapless s h g

  later-Gapless : {s t : Subscription} → Reach start raws s t → Phase s → Gapless s → Gapless t
  later-Gapless here h g = g
  later-Gapless (next r step) h g =
      step-Gapless step (later-Phase start raws r h) (later-Gapless r h g)

-- Opened with the token of the record at `k` as its cursor, a subscription loses, repeats and
-- reorders nothing across reconnections: where Horizon starts a stream with a record's token just
-- after that record, and no token is empty, the events delivered so far are the account's records
-- after that record, as many as there are, in their order.
pub Reach-delivered :
    (start : ℕ → Option String → ℕ) (raws : List RawPaymentRecord)
    → Resumes start raws
    → (k : ℕ) (raw : RawPaymentRecord) → record_at raws k ≡ some raw
    → (s : Subscription) → Reach start raws (subscribe start raws (some raw.paging_token)) s
    → delivered s.log ≡ served raws (suc k) (events s.log)
Reach-delivered start raws resumes k raw e s r =
    (later-Gapless start raws resumes (suc k) r
      (Reach-Phase start raws (some raw.paging_token) _ here)
      (subscribe-Gapless start raws resumes (suc k) (some raw.paging_token)
        (token_start start raw.paging_token k (resumes k raw e)))).so_far

module _ (start : ℕ → Option String → ℕ) (raws : List RawPaymentRecord)
    (resumes : Resumes start raws) where
  -- No event was delivered yet; or the events are the records from a position on.
  data Run (s : Subscription) : Type 0 where
    quiet : events s.log ≡ 0 → delivered s.log ≡ [] → Run s
    running : (p : ℕ) → Gapless start raws resumes p s → Run s

  message-Run :
      (s : Subscription) (n : ℕ) (stream : Stream) (raw : RawPaymentRecord)
      → find (numbered n) s.streams ≡ some stream
      → record_at raws stream.position ≡ some raw
      → Phase s
      → events s.log ≡ 0
      → delivered s.log ≡ []
      → Run (on_message raw (record s { streams = update_where (numbered n) advance s.streams }))
  message-Run s n stream raw found sent (connected other c a e f) none_yet nothing =
      running other.position (
        advance-Gapless start raws resumes other.position s n stream other raw e found sent
          (nothing ∙ rw none_yet refl) (omega (arith, none_yet)))
  message-Run s n stream raw found sent (waiting c a e) none_yet nothing =
      absurd (found_none n stream s.streams e found)
  message-Run s n stream raw found sent (ended c a e) none_yet nothing =
      absurd (found_none n stream s.streams e found)

  timer-Run :
      (s : Subscription)
      → events s.log ≡ 0
      → delivered s.log ≡ []
      → Run (connect start raws (record s { armed = false }))
  unfolding connect
  timer-Run s none_yet nothing = elim (Bool-cases s.closed) [
    | inl t ↦ rw t (quiet none_yet nothing)
    | inr f ↦ rw f (quiet none_yet nothing)
  ]

  error-Run :
      (s : Subscription) (closes : Bool)
      → events s.log ≡ 0
      → delivered s.log ≡ []
      → Run (on_error closes s)
  unfolding on_error close
  error-Run s true none_yet nothing = quiet none_yet nothing
  error-Run s false none_yet nothing = quiet none_yet nothing

  step-Run : {s t : Subscription} → ◌⟶◌ start raws s t → Phase s → Run s → Run t
  unfolding close
  step-Run step h (running p g) = running p (step-Gapless start raws resumes p step h g)
  step-Run {s = s} (message n stream raw found sent) h (quiet a b) =
      message-Run s n stream raw found sent h a b
  step-Run {s = s} (failure n stream closes found) h (quiet a b) = error-Run s closes a b
  step-Run {s = s} (timer t) h (quiet a b) = timer-Run s a b
  step-Run {s = s} closing h (quiet a b) = quiet a b

  later-Run : {s t : Subscription} → Reach start raws s t → Phase s → Run s → Run t
  later-Run here h g = g
  later-Run (next r step) h g = step-Run step (later-Phase start raws r h) (later-Run r h g)

  Run-served :
      (s : Subscription) → Run s → (p : ℕ) × (delivered s.log ≡ served raws p (events s.log))
  Run-served s (quiet a b) = (0, b ∙ rw a refl)
  Run-served s (running p g) = (p, g.so_far)

  subscribe-Run : (cursor : Option String) → Run (subscribe start raws cursor)
  unfolding connect
  subscribe-Run cursor = quiet refl refl

  -- Opened with any cursor or live: from the first event that is delivered on, none is lost, repeated
  -- or reordered across reconnections. Under the same conditions on Horizon the events delivered
  -- so far are a run of the account's records, as they follow each other. (What arrives while a
  -- live subscription is reconnecting before its first event is not in the run.)
  pub Reach-run :
      (cursor : Option String) (s : Subscription)
      → Reach start raws (subscribe start raws cursor) s
      → (p : ℕ) × (delivered s.log ≡ served raws p (events s.log))
  Reach-run cursor s r =
      Run-served s (later-Run r (Reach-Phase start raws cursor _ here) (subscribe-Run cursor))
