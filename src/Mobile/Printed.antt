-- ===== src/Mobile/Printed.antt =====
-- Server-sent events, read back by the client (apps/mobile/src/services/payments-client.ts).
use mathlib.Core.List.{append_assoc, append-nil}
use mix_match_onchain.Base.{
  ℕ, ◌≡◌, ◌≢◌, refl, sym, ap, ◌∙◌, false, Option, some, List, [], ◌∷◌, ◌++◌, map, Text, codes,
  same_code, split, widen, starts_with, find, find_later, Bool, trim, All, arith,
}
use mix_match_onchain.Mobile.Stream.{Payload, Signal, fresh, read_line, read_event, pump}
use mix_match_onchain.Mobile.Frames.{frames, collect, receive-conclude, push}
use mix_match_onchain.Mobile.Delivery.{join, transaction_of, pump-values}

-- No line feed.
abbrev pub OneLine : Text → Type 0
OneLine = All (λ c. c ≢ 10)

not_feed : (c : ℕ) → c ≢ 10 → same_code c 10 ≡ false
not_feed c n = ground arith

frames-line :
    (line more : Text)
    → OneLine line
    → frames (line ++ 10 ∷ 10 ∷ more) ≡ (line ∷ (frames more).0, (frames more).1)
unfolding frames
frames-line [] more h = refl
frames-line (c ∷ []) more h = rw (not_feed c h.0) refl
frames-line (c ∷ d ∷ line) more h =
    rw (not_feed c h.0) (ap (push c) (frames-line (d ∷ line) more h.1))

split-line : (line : Text) → OneLine line → split 10 line ≡ line ∷ []
split-line [] h = refl
split-line (c ∷ line) h = rw (not_feed c h.0) (rw (split-line line h.1) refl)

split-field :
    (line rest : Text) → OneLine line → split 10 (line ++ 10 ∷ rest) ≡ line ∷ split 10 rest
split-field [] rest h = refl
split-field (c ∷ line) rest h = rw (not_feed c h.0) (ap (widen c) (split-field line rest h.1))

data_line-OneLine : (json : Text) → OneLine json → OneLine (codes "data: " ++ json)
data_line-OneLine json h = (
  ground arith,
  (ground arith, (ground arith, (ground arith, (ground arith, (ground arith, h))))),
)

abbrev data_line : Text → Text
data_line json = codes "data: " ++ json

-- An event in the format of server-sent events: the lines of other fields, such as `id:` and
-- `event:`, then the line of its data; a blank line ends it.
abbrev pub block : List Text → Text → Text
block [] json = data_line json
block (line ∷ lines) json = line ++ 10 ∷ block lines json

abbrev pub print_event : List Text × Text → Text
print_event (lines, json) = block lines json ++ 10 ∷ 10 ∷ []

abbrev pub print_events : List (List Text × Text) → Text
print_events [] = []
print_events (event ∷ more) = print_event event ++ print_events more

-- A line of another field: one line, not empty, that is not of data.
abbrev pub IsField : Text → Type 0
IsField [] = ⊥
IsField (c ∷ line) = OneLine (c ∷ line) × (starts_with (c ∷ line) (codes "data:") ≡ false)

-- The first character of a text that does not start with a line feed.
record Starts (text : Text) : Type 0 where
  first : ℕ
  later : Text
  is_text : text ≡ first ∷ later
  other : first ≢ 10

Starts-block :
    (lines : List Text) (json more : Text) → All IsField lines → Starts (block lines json ++ more)
Starts-block [] json more h = record { first = _; later = _; is_text = refl; other = ground arith }
Starts-block ([] ∷ lines) json more h = absurd h.0
Starts-block ((c ∷ line) ∷ lines) json more h = record {
  first = c;
  later = _;
  is_text = refl;
  other = h.0.0.0;
}

abbrev push_all : Text → List Text × Text → List Text × Text
push_all [] cut = cut
push_all (c ∷ text) cut = push c (push_all text cut)

push_all-first :
    (text event rest : Text) (events : List Text)
    → push_all text (event ∷ events, rest) ≡ ((text ++ event) ∷ events, rest)
push_all-first [] event rest events = refl
push_all-first (c ∷ text) event rest events = ap (push c) (push_all-first text event rest events)

frames-feed : (text : Text) (s : Starts text) → frames (10 ∷ text) ≡ push 10 (frames text)
unfolding frames
frames-feed text s =
    ap (λ t. frames (10 ∷ t)) s.is_text
    ∙ rw (not_feed s.first s.other) refl
    ∙ ap (λ t. push 10 (frames t)) (sym s.is_text)

frames-field :
    (c : ℕ) (line text : Text)
    → OneLine (c ∷ line)
    → Starts text
    → frames ((c ∷ line) ++ 10 ∷ text) ≡ push_all ((c ∷ line) ++ 10 ∷ []) (frames text)
unfolding frames
frames-field c [] text h s = rw (not_feed c h.0) (ap (push c) (frames-feed text s))
frames-field c (d ∷ line) text h s =
    rw (not_feed c h.0) (ap (push c) (frames-field d line text h.1 s))

frames-block :
    (lines : List Text) (json more : Text)
    → All IsField lines
    → OneLine json
    → frames (block lines json ++ 10 ∷ 10 ∷ more)
      ≡ (block lines json ∷ (frames more).0, (frames more).1)
frames-block [] json more h o = frames-line (data_line json) more (data_line-OneLine json o)
frames-block ([] ∷ lines) json more h o = absurd h.0
frames-block ((c ∷ line) ∷ lines) json more h o =
    ap frames (append_assoc (c ∷ line) (10 ∷ block lines json) (10 ∷ 10 ∷ more))
    ∙ frames-field c line (block lines json ++ 10 ∷ 10 ∷ more) h.0.0
        (Starts-block lines json (10 ∷ 10 ∷ more) h.1)
    ∙ ap (push_all ((c ∷ line) ++ 10 ∷ [])) (frames-block lines json more h.1 o)
    ∙ push_all-first ((c ∷ line) ++ 10 ∷ []) (block lines json) (frames more).1 (frames more).0
    ∙ ap (λ t. (t ∷ (frames more).0, (frames more).1))
        (append_assoc (c ∷ line) (10 ∷ []) (block lines json))

abbrev is_data : Text → Bool
is_data line = starts_with line (codes "data:")

found-block :
    (lines : List Text) (json : Text)
    → All IsField lines
    → OneLine json
    → find is_data (split 10 (block lines json)) ≡ some (data_line json)
found-block [] json h o = ap (find is_data) (split-line (data_line json) (data_line-OneLine json o))
found-block ([] ∷ lines) json h o = absurd h.0
found-block ((c ∷ line) ∷ lines) json h o =
    ap (find is_data) (split-field (c ∷ line) (block lines json) h.0.0)
    ∙ find_later is_data (c ∷ line) (split 10 (block lines json)) h.0.1
    ∙ found-block lines json h.1 o

abbrev block_of : List Text × Text → Text
block_of (lines, json) = block lines json

-- Its lines are of other fields and its data is on one line.
abbrev IsEvent : List Text × Text → Type 0
IsEvent (lines, json) = All IsField lines × OneLine json

frames-print :
    (events : List (List Text × Text))
    → All IsEvent events
    → frames (print_events events) ≡ (map block_of events, [])
unfolding frames
frames-print [] h = refl
frames-print ((lines, json) ∷ events) h =
    ap frames (append_assoc (block lines json) (10 ∷ 10 ∷ []) (print_events events))
    ∙ frames-block lines json (print_events events) h.0.0 h.0.1
    ∙ ap (λ cut. (block lines json ∷ cut.0, cut.1)) (frames-print events h.1)

module _ {Tx : Type 0} (parse : Text → Option (Payload Tx)) (stringify : Payload Tx → Text) where
  abbrev pub printed : List Text × Payload Tx → List Text × Text
  printed (lines, p) = (lines, stringify p)

  -- `parse` reads what `stringify` writes of the payload, on one line, and the lines before are of
  -- other fields.
  abbrev pub Printable : List Text × Payload Tx → Type 0
  Printable (lines, p) =
      (parse (trim (stringify p)) ≡ some p) × OneLine (stringify p) × All IsField lines

  abbrev pub carried : List Text × Payload Tx → Option Tx
  carried (lines, p) = transaction_of p

  read_event-print :
      (lines : List Text) (p : Payload Tx)
      → Printable (lines, p)
      → read_event parse (block lines (stringify p)) ≡ transaction_of p
  unfolding read_event read_line
  read_event-print lines p h =
      simp (read_event, found-block lines (stringify p) h.2 h.1, read_line, h.0)

  collect-print :
      (events : List (List Text × Payload Tx))
      → All Printable events
      → collect (read_event parse) (map block_of (map printed events)) ≡ collect carried events
  collect-print [] h = refl
  collect-print ((lines, p) ∷ events) h =
      rw (read_event-print lines p h.0, collect-print events h.1) refl

  print-IsEvent :
      (events : List (List Text × Payload Tx))
      → All Printable events
      → All IsEvent (map printed events)
  print-IsEvent [] h = tt
  print-IsEvent ((lines, p) ∷ events) h = ((h.0.2, h.0.1), print-IsEvent events h.1)

  -- Server-sent events, cut into any chunks, are read back: where each has the lines of other fields
  -- and then one line of data, which `stringify` writes and `parse` reads, the transactions of the
  -- payloads are delivered, each once and in order, heartbeats are passed over, no text is left
  -- waiting, and no error is reported.
  pub pump-print :
      {E : Type 0} (events : List (List Text × Payload Tx)) (chunks : List Text)
      → All Printable events
      → join chunks ≡ print_events (map printed events)
      → pump {E = E} parse (map Signal.value chunks) fresh
        ≡ record fresh { delivered = collect carried events }
  unfolding pump
  pump-print events chunks h e =
      ap (λ signals. pump parse signals fresh) (sym (append-nil (map Signal.value chunks)))
      ∙ pump-values parse chunks []
      ∙ receive-conclude parse (join chunks) fresh
      ∙ rw e (
          rw (frames-print (map printed events) (print-IsEvent events h))
            (rw (collect-print events h) refl))
