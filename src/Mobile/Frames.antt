-- ===== src/Mobile/Frames.antt =====
-- Cutting a stream into events (apps/mobile/src/services/payments-client.ts) in one pass over the
-- text, and the client's loop against it.
use mathlib.Core.List.{append_assoc, append-nil}
use mix_match_onchain.Base.{
  ℕ, suc, zero, ◌≤◌, ◌≡◌, refl, sym, ap, ◌∙◌, false, Bool-cases, Option-cases, Option, none, some,
  inl, inr, List, [], ◌∷◌, ◌++◌, Text, take, drop, length, length-drop, arith, if◌then◌else◌,
}
use mix_match_onchain.Mobile.Stream.{
  is_blank, later, index_of_blank, Payload, Session, read_event, deliver, drain, receive,
}

-- The first character goes before the first event, or before the rest when there is no event.
abbrev pub push : ℕ → List Text × Text → List Text × Text
push c ([], rest) = ([], c ∷ rest)
push c (event ∷ events, rest) = ((c ∷ event) ∷ events, rest)

-- The events that end in a blank line, and the text after the last of them.
unfoldable pub frames : Text → List Text × Text
frames [] = ([], [])
frames (c ∷ []) = ([], c ∷ [])
frames (c ∷ d ∷ text) =
    let (events, rest) = frames text in
    let longer = push c (frames (d ∷ text)) in if is_blank c d then ([] ∷ events, rest) else longer

abbrev or_nothing : {B : Type 0} → Option B → List B → List B
or_nothing none rest = rest
or_nothing (some b) rest = b ∷ rest

or_nothing-append :
    {B : Type 0} (found : Option B) (xs ys : List B)
    → or_nothing found (xs ++ ys) ≡ or_nothing found xs ++ ys
or_nothing-append none xs ys = refl
or_nothing-append (some b) xs ys = refl

-- The answers of a test that has them, in order.
abbrev pub collect : {A B : Type 0} → (A → Option B) → List A → List B
collect f [] = []
collect f (a ∷ rest) = or_nothing (f a) (collect f rest)

pub collect-append :
    {A B : Type 0} (f : A → Option B) (xs ys : List A)
    → collect f (xs ++ ys) ≡ collect f xs ++ collect f ys
collect-append f [] ys = refl
collect-append f (x ∷ xs) ys =
    rw (collect-append f xs ys) (or_nothing-append (f x) (collect f xs) (collect f ys))

-- More text after the events and the rest.
abbrev pub resume : List Text × Text → Text → List Text × Text
resume (events, rest) more =
    let (later_events, last) = frames (rest ++ more) in (events ++ later_events, last)

frames-cut : Text → Option ℕ → List Text × Text
frames-cut text none = ([], text)
frames-cut text (some k) =
    let (events, rest) = frames (drop (suc (suc k)) text) in (take k text ∷ events, rest)

frames-push :
    (c d : ℕ) (text : Text) (found : Option ℕ)
    → push c (frames-cut (d ∷ text) found) ≡ frames-cut (c ∷ d ∷ text) (later found)
unfolding frames-cut
frames-push c d text none = refl
frames-push c d text (some k) = refl

-- The pass cuts where the loop's search finds the next blank line.
frames-index : (text : Text) → frames text ≡ frames-cut text (index_of_blank text)
unfolding frames index_of_blank frames-cut
frames-index [] = refl
frames-index (c ∷ []) = refl
frames-index (c ∷ d ∷ text) = elim (Bool-cases (is_blank c d)) [
  | inl t ↦ rw t refl
  | inr f ↦
      rw f
        (ap (push c) (frames-index (d ∷ text)) ∙ frames-push c d text (index_of_blank (d ∷ text)))
]

-- What the events hand on, and the rest of the text.
abbrev pub conclude :
    {E Tx : Type 0} → List Text × Text → (Text → Option Tx) → Session E Tx → Session E Tx
conclude (events, rest) read session = record session {
  buffer = rest;
  delivered = session.delivered ++ collect read events;
}

push-rest :
    (c : ℕ) (cut : List Text × Text) (text : Text)
    → (cut.0 ≡ [] → cut.1 ≡ text)
    → (push c cut).0 ≡ []
    → (push c cut).1 ≡ c ∷ text
push-rest c ([], rest) text h e = ap (λ t. c ∷ t) (h refl)
push-rest c (event ∷ events, rest) text h e = cc

-- A text that holds no event is its own rest.
frames-rest : (text : Text) → (frames text).0 ≡ [] → (frames text).1 ≡ text
unfolding frames
frames-rest [] e = refl
frames-rest (c ∷ []) e = refl
frames-rest (c ∷ d ∷ text) e = elim (Bool-cases (is_blank c d)) [
  | inl t ↦ cc (simp t at e)
  | inr f ↦ rw f (push-rest c (frames (d ∷ text)) (d ∷ text) (frames-rest (d ∷ text)) (rw f at e))
]

push-resume :
    (c d : ℕ) (text more : Text) (cut : List Text × Text)
    → is_blank c d ≡ false
    → (cut.0 ≡ [] → cut.1 ≡ d ∷ text)
    → frames (d ∷ (text ++ more)) ≡ resume cut more
    → push c (frames (d ∷ (text ++ more))) ≡ resume (push c cut) more
unfolding frames
push-resume c d text more ([], rest) f h e = rw (h refl) (rw f refl)
push-resume c d text more (event ∷ events, rest) f h e = rw e refl

-- More text goes on from the rest.
frames-append : (text more : Text) → frames (text ++ more) ≡ resume (frames text) more
unfolding frames
frames-append [] more = refl
frames-append (c ∷ []) more = refl
frames-append (c ∷ d ∷ text) more = elim (Bool-cases (is_blank c d)) [
  | inl t ↦ rw t (rw (frames-append text more) refl)
  | inr f ↦ rw f (
      push-resume c d text more (frames (d ∷ text)) f (frames-rest (d ∷ text))
        (frames-append (d ∷ text) more))
]

module _ {E Tx : Type 0} (parse : Text → Option (Payload Tx)) where
  deliver-buffer :
      (found : Option Tx) (text : Text) (session : Session E Tx)
      → deliver found (record session { buffer = text })
        ≡ record (deliver found session) { buffer = text }
  deliver-buffer none text session = refl
  deliver-buffer (some tx) text session = refl

  conclude-deliver :
      (found : Option Tx) (events : List Text × Text) (raw : Text) (session : Session E Tx)
      → read_event parse raw ≡ found
      → conclude events (read_event parse) (deliver found session)
        ≡ conclude (raw ∷ events.0, events.1) (read_event parse) session
  conclude-deliver none events raw session e = rw e refl
  conclude-deliver (some tx) events raw session e = rw e (simp append_assoc)

  -- The loop, with fuel for the buffer's length, does what the one pass does.
  drain-conclude :
      (n : ℕ) (text : Text) (session : Session E Tx)
      → length text ≤ n
      → drain parse n (record session { buffer = text })
        ≡ conclude (frames text) (read_event parse) session
  unfolding drain frames-cut frames
  drain-conclude zero [] session h = simp (frames, append-nil)
  drain-conclude zero (c ∷ text) session h = absurd (omega arith)
  drain-conclude (suc n) text session h = elim (Option-cases (index_of_blank text)) [
    | inl e ↦ simp (drain, frames-index, e, append-nil)
    | inr (k, e) ↦
        simp (drain, frames-index text, e)
          (ap (drain parse n)
              (deliver-buffer (read_event parse (take k text)) (drop (suc (suc k)) text) session)
            ∙ drain-conclude n (drop (suc (suc k)) text)
                (deliver (read_event parse (take k text)) session)
                (omega (arith, length-drop (suc (suc k)) text))
            ∙ conclude-deliver (read_event parse (take k text)) (frames (drop (suc (suc k)) text))
                (take k text) session refl)
  ]

  -- A chunk is handled by the one pass over the buffer and the chunk.
  pub receive-conclude :
      (text : Text) (session : Session E Tx)
      → receive parse text session
        ≡ conclude (frames (session.buffer ++ text)) (read_event parse) session
  unfolding receive
  receive-conclude text session =
      drain-conclude (length (session.buffer ++ text)) (session.buffer ++ text) session
        (omega arith)

  pub receive-append :
      (first more : Text) (session : Session E Tx)
      → receive parse more (receive parse first session) ≡ receive parse (first ++ more) session
  receive-append first more session =
      rw
        (
          receive-conclude more (receive parse first session),
          receive-conclude first session,
          receive-conclude (first ++ more) session,
        )
        (rw (sym (append_assoc session.buffer first more))
          (rw (frames-append (session.buffer ++ first) more) (simp (collect-append, append_assoc))))
