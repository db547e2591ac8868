-- ===== src/Mobile/Stream.antt =====
-- apps/mobile/src/services/payments-client.ts: subscribeToTransactionStream. Texts are lists of code
-- points; what `fetch`, the reader, `JSON.parse` and `close` do comes as a list of signals.
use mix_match_onchain.Base.{
  ℕ, suc, zero, Bool, true, false, ◌&&◌, ◌||◌, Option, none, some, List, [], ◌∷◌, ◌++◌, Text, codes,
  same_code, starts_with, split, trim, find, take, drop, length, or_else, same_text, if◌then◌else◌,
  String,
}

-- Two line feeds in a row.
abbrev pub is_blank : ℕ → ℕ → Bool
is_blank c d = same_code c 10 && same_code d 10

-- A position, seen from one character before.
abbrev pub later : Option ℕ → Option ℕ
later none = none
later (some k) = some (suc k)

-- `buffer.indexOf('\n\n')`, none for -1
unfoldable pub index_of_blank : Text → Option ℕ
index_of_blank [] = none
index_of_blank (c ∷ []) = none
index_of_blank (c ∷ d ∷ rest) = if is_blank c d then some 0 else later (index_of_blank (d ∷ rest))

-- What a JSON event says, with the transaction under either name.
pub record Payload (Tx : Type 0) : Type 0 where
  pub event_type : Option String
  pub transaction : Option Tx
  pub payload_data : Option Tx

-- What the subscription hears: the text of a chunk, the end of the body, a rejected read, and the
-- caller's `close`.
pub data Signal (E : Type 0) : Type 0 where
  value : Text → Signal E
  done : Signal E
  failed : E → Signal E
  close : Signal E

-- How `fetch` settles: an error, a response to turn away with its status, or an open body.
pub data Opening (E : Type 0) : Type 0 where
  rejected : E → Opening E
  refused : ℕ → Opening E
  opened : Opening E

-- The transactions handed to `onTransaction` and the errors handed to `onError`, oldest first.
pub record Session (E Tx : Type 0) : Type 0 where
  pub buffer : Text
  pub closed : Bool
  pub delivered : List Tx
  pub reported : List E

abbrev pub is_keepalive : {Tx : Type 0} → Payload Tx → Bool
is_keepalive payload =
    same_text (payload.event_type) (some "heartbeat")
    || same_text (payload.event_type) (some "ping")

-- `parse` is `JSON.parse`, none where it throws or answers null.
module _ {Tx : Type 0} (parse : Text → Option (Payload Tx)) where
  -- The transaction of a data line, if it has one.
  unfoldable pub read_line : Text → Option Tx
  read_line line = elim (parse (trim (drop 5 line))) [
    | none ↦ none
    | some payload ↦
        if is_keepalive payload then none else or_else (payload.transaction) (payload.payload_data)
  ]

  -- What one event of the stream hands to `onTransaction`.
  unfoldable pub read_event : Text → Option Tx
  read_event raw_event =
      elim (find (λ line. starts_with line (codes "data:")) (split 10 raw_event)) [
        | none ↦ none
        | some line ↦ read_line line
      ]

module _ {E Tx : Type 0} where
  abbrev pub fresh : Session E Tx
  fresh = record { buffer = []; closed = false; delivered = []; reported = [] }

  abbrev pub deliver : Option Tx → Session E Tx → Session E Tx
  deliver none session = session
  deliver (some tx) session = record session { delivered = session.delivered ++ tx ∷ [] }

  abbrev pub report : E → Session E Tx → Session E Tx
  report e session =
      if session.closed then session else record session { reported = session.reported ++ e ∷ [] }

module _ {E Tx : Type 0} (parse : Text → Option (Payload Tx)) where
  -- The inner loop: whole events are cut off the front of the buffer. `fuel` bounds its rounds.
  unfoldable pub drain : ℕ → Session E Tx → Session E Tx
  drain zero session = session
  drain (suc fuel) session = elim (index_of_blank session.buffer) [
    | none ↦ session
    | some boundary ↦ drain fuel (
        deliver (read_event parse (take boundary session.buffer))
          (record session { buffer = drop (suc (suc boundary)) session.buffer }))
  ]

  -- A chunk arrives: each round of the inner loop takes two characters at least, so that the
  -- buffer's length is enough fuel.
  unfoldable pub receive : Text → Session E Tx → Session E Tx
  receive text session =
      let buffer = session.buffer ++ text in
      drain (length buffer) (record session { buffer = buffer })

  -- The outer loop, from one read to the next. A text that is read already when `close` comes is
  -- still handled, and the loop ends after it.
  unfoldable pub pump : List (Signal E) → Session E Tx → Session E Tx
  pump [] session = session
  pump (Signal.value text ∷ signals) session = elim session.closed [
    | true ↦ receive text session
    | false ↦ pump signals (receive text session)
  ]
  pump (Signal.done ∷ signals) session = session
  pump (Signal.failed e ∷ signals) session = report e session
  pump (Signal.close ∷ signals) session = pump signals (record session { closed = true })

  -- `closed` says whether the caller closes before the request settles; `bad_status` is the error
  -- of a response that is turned away.
  unfoldable pub subscribe : (ℕ → E) → Bool → Opening E → List (Signal E) → Session E Tx
  subscribe bad_status closed (Opening.rejected e) signals =
      report e (record fresh { closed = closed })
  subscribe bad_status closed (Opening.refused status) signals =
      report (bad_status status) (record fresh { closed = closed })
  subscribe bad_status true Opening.opened signals = record fresh { closed = true }
  subscribe bad_status false Opening.opened signals = pump signals fresh
