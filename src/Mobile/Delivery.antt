-- ===== src/Mobile/Delivery.antt =====
-- What the subscription of apps/mobile/src/services/payments-client.ts delivers, however the stream
-- is cut into chunks, and what it reports after `close`.
use mathlib.Core.List.{append-nil}
use mix_match_onchain.Base.{
  ◌≡◌, refl, ap, ◌∙◌, true, false, Option, none, List, [], ◌∷◌, ◌++◌, map, Text, or_else,
  if◌then◌else◌,
}
use mix_match_onchain.Mobile.Stream.{
  Payload, Signal, Session, fresh, is_keepalive, drain, receive, pump,
}
use mix_match_onchain.Mobile.Frames.{receive-conclude, receive-append}

-- Chunks, one after the other.
abbrev pub join : List Text → Text
join [] = []
join (text ∷ texts) = text ++ join texts

-- The transaction of a payload that is no heartbeat.
abbrev pub transaction_of : {Tx : Type 0} → Payload Tx → Option Tx
transaction_of payload =
    if is_keepalive payload then none else or_else payload.transaction payload.payload_data

module _ {E Tx : Type 0} (parse : Text → Option (Payload Tx)) where
  receive-closed :
      (text : Text) (session : Session E Tx) → (receive parse text session).closed ≡ session.closed
  receive-closed text session = ap (λ s. s.closed) (receive-conclude parse text session)

  pump-value :
      (text : Text) (chunks : List Text) (rest : List (Signal E)) (session : Session E Tx)
      → session.closed ≡ false
      → pump parse (Signal.value text ∷ (map Signal.value chunks ++ rest)) session
        ≡ pump parse rest (receive parse (text ++ join chunks) session)
  unfolding pump
  pump-value text [] rest session e = simp (pump, e, append-nil)
  pump-value text (chunk ∷ chunks) rest session e =
      simp (pump, e)
        (pump-value chunk chunks rest (receive parse text session) (receive-closed text session ∙ e)
          ∙ ap (pump parse rest) (receive-append parse text (chunk ++ join chunks) session))

  pub pump-values :
      (chunks : List Text) (rest : List (Signal E))
      → pump parse (map Signal.value chunks ++ rest) fresh
        ≡ pump parse rest (receive parse (join chunks) fresh)
  unfolding receive drain
  pump-values [] rest = refl
  pump-values (chunk ∷ chunks) rest = pump-value chunk chunks rest fresh refl

  -- The chunks do not matter: two ways to cut the same text, whatever follows, leave the same
  -- transactions delivered in the same order, the same errors reported and the same text waiting.
  pub pump-chunks :
      (chunks others : List Text) (rest : List (Signal E))
      → join chunks ≡ join others
      → pump parse (map Signal.value chunks ++ rest) fresh
        ≡ pump parse (map Signal.value others ++ rest) fresh
  pump-chunks chunks others rest e = rw (pump-values chunks rest, pump-values others rest, e) refl

  -- Once the caller has closed the subscription, no error is reported to it, whatever comes.
  pub closed-reported :
      (signals : List (Signal E)) (session : Session E Tx)
      → session.closed ≡ true
      → (pump parse signals session).reported ≡ session.reported
  unfolding pump
  closed-reported [] session e = refl
  closed-reported (Signal.value text ∷ signals) session e =
      simp (pump, e) (ap (λ s. s.reported) (receive-conclude parse text session))
  closed-reported (Signal.done ∷ signals) session e = refl
  closed-reported (Signal.failed x ∷ signals) session e = simp e
  closed-reported (Signal.close ∷ signals) session e =
      closed-reported signals (record session { closed = true }) refl
