-- ===== src/Api/Updates/Quiet.antt =====
-- What a subscription does after its end (payments.service.ts, `streamTransactionUpdates`).
use mix_match_onchain.Base.{
  true_ne, String, Bool, true, false, ◌≡◌, refl, Option, none, some, List, [], ◌∷◌, ◌++◌, not,
  if◌then◌else◌,
}
use mix_match_onchain.Exec.{Result, ok, err}
use mix_match_onchain.Error.{Error}
use mix_match_onchain.Env.{Env}
use mix_match_onchain.Api.Rows.{Account, Transaction, World}
use mix_match_onchain.Api.Updates.{
  Updates, Told, handed, on_account, on_resolved, on_event, unsubscribe, stream_transaction_updates,
  ◌⟶◌, account, event, resolved, ending, elsewhere, Reach, here, next,
}

-- The rows that the subscriber was handed, the latest first.
abbrev pub rows : List Told → List Transaction
rows [] = []
rows (handed row ∷ told) = row ∷ rows told
rows (_ ∷ told) = rows told

-- After the end the stream is closed.
abbrev IsClosed : Updates → Type 0
IsClosed s = s.unsubscribed ≡ true → s.is_open ≡ false

-- Ended, closed, and with the rows handed on so far.
pub record Quiet (handed_on : List Transaction) (s : Updates) : Type 0 where
  pub ended : s.unsubscribed ≡ true
  pub closed : s.is_open ≡ false
  pub same : rows s.told ≡ handed_on

if-IsClosed :
    (b : Bool) (s t : Updates)
    → (b ≡ true → IsClosed s)
    → (b ≡ false → IsClosed t)
    → IsClosed (if b then s else t)
if-IsClosed true s t h k = h refl
if-IsClosed false s t h k = k refl

module _ (s : Updates) where
  account-IsClosed : (r : Result Error (Option Account)) → IsClosed s → IsClosed (on_account r s)
  unfolding on_account unsubscribe
  account-IsClosed (err e) h = λ u. refl
  account-IsClosed (ok none) h = if-IsClosed s.unsubscribed s _ (λ t. h) (λ f u. refl)
  account-IsClosed (ok (some row)) h =
      if-IsClosed s.unsubscribed s _ (λ t. h) (λ f u. absurd (true_ne s.unsubscribed u f))

  resolved-IsClosed :
      (r : Result Error (Option Transaction)) → IsClosed s → IsClosed (on_resolved r s)
  unfolding on_resolved unsubscribe
  resolved-IsClosed (err e) h = λ u. refl
  resolved-IsClosed (ok none) h = h
  resolved-IsClosed (ok (some row)) h = if-IsClosed (not s.unsubscribed) _ s (λ t. h) (λ f. h)

  account-Quiet :
      {l : List Transaction} (r : Result Error (Option Account))
      → Quiet l s
      → Quiet l (on_account r s)
  unfolding on_account unsubscribe
  account-Quiet (err e) h = record { ended = refl; closed = refl; same = h.same }
  account-Quiet (ok none) h = simp (h.ended) h
  account-Quiet (ok (some row)) h = simp (h.ended) h

  resolved-Quiet :
      {l : List Transaction} (r : Result Error (Option Transaction))
      → Quiet l s
      → Quiet l (on_resolved r s)
  unfolding on_resolved unsubscribe
  resolved-Quiet (err e) h = record { ended = refl; closed = refl; same = h.same }
  resolved-Quiet (ok none) h = h
  resolved-Quiet (ok (some row)) h = simp (h.ended) h

module _ (env : Env) where
  step-IsClosed : {s t : Updates} → ◌⟶◌ env s t → IsClosed s → IsClosed t
  unfolding unsubscribe on_event
  step-IsClosed {s = s} (account r e) h = account-IsClosed (record s { lookup = none }) r h
  step-IsClosed {s = s} (event followed payment e o) h = h
  step-IsClosed {s = s} (resolved r before after e) h =
      resolved-IsClosed (record s { resolving = before ++ after }) r h
  step-IsClosed ending h = λ u. refl
  step-IsClosed (elsewhere w) h = h

  step-Quiet : {l : List Transaction} {s t : Updates} → ◌⟶◌ env s t → Quiet l s → Quiet l t
  unfolding unsubscribe on_event
  step-Quiet {s = s} (account r e) h =
      account-Quiet (record s { lookup = none }) r
        (record { ended = h.ended; closed = h.closed; same = h.same })
  step-Quiet {s = s} (event followed payment e o) h = absurd (true_ne s.is_open o h.closed)
  step-Quiet {s = s} (resolved r before after e) h =
      resolved-Quiet (record s { resolving = before ++ after }) r
        (record { ended = h.ended; closed = h.closed; same = h.same })
  step-Quiet ending h = record { ended = refl; closed = refl; same = h.same }
  step-Quiet (elsewhere w) h = record { ended = h.ended; closed = h.closed; same = h.same }

  Reach-IsClosed : {s t : Updates} → Reach env s t → IsClosed s → IsClosed t
  Reach-IsClosed here h = h
  Reach-IsClosed (next reach step) h = step-IsClosed step (Reach-IsClosed reach h)

  Reach-Quiet : {l : List Transaction} {s t : Updates} → Reach env s t → Quiet l s → Quiet l t
  Reach-Quiet here h = h
  Reach-Quiet (next reach step) h = step-Quiet step (Reach-Quiet reach h)

  -- Once a subscription has ended, its stream is closed and stays closed, and the subscriber is
  -- handed no further row, whatever promises still settle.
  pub unsubscribed-Quiet :
      (user_id : String) (w : World) {s t : Updates}
      → Reach env (stream_transaction_updates env user_id w) s
      → s.unsubscribed ≡ true
      → Reach env s t
      → Quiet (rows s.told) t
  unfolding stream_transaction_updates
  unsubscribed-Quiet user_id w reach u later =
      Reach-Quiet later
        (record { ended = u; closed = Reach-IsClosed reach (λ v. refl) u; same = refl })
