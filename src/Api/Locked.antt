-- ===== src/Api/Locked.antt =====
-- Release and refund of an escrow that is not LOCKED (apps/api, escrow.service.ts).
use mix_match_onchain.Base.{
  String, true, false, Option, none, some, List, [], ◌∷◌, ◌≡◌, refl, sym, ap, find, ◌==◌,
  Bool-cases, inl, inr, ℕ,
}
use mix_match_onchain.Exec.{Result, ok, err}
use mix_match_onchain.Exec.Rules.{Ensures, Ensures-bind, Ensures-if, Ensures-throw, Ensures-pure}
use mix_match_onchain.Error.{Error}
use mix_match_onchain.Env.{Env}
use mix_match_onchain.Env.Sdk.{Envelope}
use mix_match_onchain.Env.Calls.{Trace, send}
use mix_match_onchain.Stellar.Net.{Net}
use mix_match_onchain.Stellar.Wallet.{Wallet}
use mix_match_onchain.Api.Store.Rules.{OnStatements, Ensures-stated}
use mix_match_onchain.Api.Rows.{Account, Escrow, EscrowStatus, World}
use mix_match_onchain.Api.Store.{App, statement}
use mix_match_onchain.Api.Accounts
use mix_match_onchain.Api.Escrows
use mix_match_onchain.Api.EscrowService

-- The envelopes that were sent to the escrow contract, the latest first.
abbrev pub sends : Trace → List Envelope
sends [] = []
sends (send e ∷ t) = e ∷ sends t
sends (_ ∷ t) = sends t

-- The escrows are `rows` and the envelopes sent to the contract `es`.
pub record Untouched (rows : List Escrow) (es : List Envelope) (w : World) : Type 0 where
  pub rows_same : w.escrows ≡ rows
  pub sends_same : sends w.trace ≡ es

-- A refusal: an error, with nothing touched.
abbrev pub RefusedEscrow : List Escrow → List Envelope → Result Error Escrow → World → Type 0
RefusedEscrow rows es (ok row) w = ⊥
RefusedEscrow rows es (err e) w = Untouched rows es w

locked_ne :
    (r row : Escrow) (found : Option Escrow)
    → found ≡ some row
    → found ≡ some r
    → EscrowService.is_locked r.status ≡ true
    → EscrowService.is_locked row.status ≡ false
    → ⊥
locked_ne r row found e f t u = cc

module _ (env : Env) (rows : List Escrow) (es : List Envelope) where
  OnStatements-Untouched : OnStatements (Untouched rows es)
  OnStatements-Untouched = record {
    counted = λ w h. record { rows_same = h.rows_same; sends_same = h.sends_same };
  }

  Ensures-Untouched :
      {A : Type 0} (Q : Result Error A → World → Type 0) (m : App A)
      → ((w : World) → Untouched rows es w → Q (m w).0 (m w).1)
      → ((e : Error) (w : World) → Untouched rows es w → Q (err e) w)
      → Ensures (Untouched rows es) (statement env m) Q
  Ensures-Untouched = Ensures-stated OnStatements-Untouched env

module _ (env : Env) (rows : List Escrow) (es : List Envelope) (id : String) where
  -- The row of the id, or an error.
  abbrev Row : Result Error Escrow → World → Type 0
  Row (ok row) w = Untouched rows es w × (find (Escrows.has_id id) rows ≡ some row)
  Row (err e) w = Untouched rows es w

  abbrev Reads : Result Error (Option Escrow) → World → Type 0
  Reads (ok r) w = Untouched rows es w × (find (Escrows.has_id id) rows ≡ r)
  Reads (err e) w = Untouched rows es w

  Ensures-owned_by :
      (user_id : String) (row : Escrow) (account : Option Account)
      → find (Escrows.has_id id) rows ≡ some row
      → Ensures (Untouched rows es) (EscrowService.owned_by env user_id row account) Row
  unfolding EscrowService.get_owned_escrow
  Ensures-owned_by user_id row none found = Ensures-throw _ (λ w h. h)
  Ensures-owned_by user_id row (some account) found =
      Ensures-if (account.user_id == user_id) _ _ (λ _. Ensures-pure row (λ w h. (h, found)))
        (λ _. Ensures-throw _ (λ w h. h))

  Ensures-with_owner :
      (user_id : String) (r : Option Escrow)
      → Ensures (Reads (ok r)) (EscrowService.with_owner env user_id r) Row
  unfolding EscrowService.get_owned_escrow Accounts.find_by_id
  Ensures-with_owner user_id none = Ensures-throw _ (λ w h. h.0)
  Ensures-with_owner user_id (some row) = record {
    at = λ w h.
        (Ensures-bind {Q = Row} (λ _ w'. Untouched rows es w') _
            (EscrowService.owned_by env user_id row)
            (Ensures-Untouched env rows es (λ _ w'. Untouched rows es w') _ (λ w' k. k)
              (λ e w' k. k))
            (λ account. Ensures-owned_by user_id row account h.1) (λ e w' k. k)).at
          w h.0;
  }

  Ensures-get_owned_escrow :
      (user_id : String)
      → Ensures (Untouched rows es) (EscrowService.get_owned_escrow env user_id id) Row
  unfolding EscrowService.get_owned_escrow Escrows.find_by_id
  Ensures-get_owned_escrow user_id =
      Ensures-bind Reads _ _
        (Ensures-Untouched env rows es Reads _
          (λ w h. (h, ap (find (Escrows.has_id id)) (sym h.rows_same))) (λ e w h. h))
        (Ensures-with_owner user_id) (λ e w h. h)

  Ensures-finalize :
      (row : Escrow) (word : String) (method : String → Option ℕ → Wallet → Net String)
      (status : EscrowStatus) (user_id : String)
      → find (Escrows.has_id id) rows ≡ some row
      → EscrowService.is_locked row.status ≡ false
      → Ensures
          (Untouched rows es)
          (EscrowService.finalize env word method status user_id id)
          (RefusedEscrow rows es)
  unfolding EscrowService.finalize
  Ensures-finalize row word method status user_id found unlocked =
      Ensures-bind Row _ _ (Ensures-get_owned_escrow user_id)
        (λ r. elim (Bool-cases (EscrowService.is_locked r.status)) [
          | inl e ↦ record {
            at = λ w h.
                absurd (locked_ne r row (find (Escrows.has_id id) rows) found h.1 e unlocked);
          }
          | inr e ↦ rw e (Ensures-throw _ (λ w h. h.0))
        ])
        (λ e w h. h)

-- Releasing or refunding an escrow that is not LOCKED throws, whoever asks: nothing is sent to the
-- contract, and no escrow changes.
pub release_for_user-RefusedEscrow :
    (env : Env) (w : World) (user_id id : String) (row : Escrow)
    → find (Escrows.has_id id) w.escrows ≡ some row
    → EscrowService.is_locked row.status ≡ false
    → RefusedEscrow w.escrows
        (sends w.trace)
        (EscrowService.release_for_user env user_id id w).0
        (EscrowService.release_for_user env user_id id w).1
      × RefusedEscrow w.escrows
          (sends w.trace)
          (EscrowService.refund_for_user env user_id id w).0
          (EscrowService.refund_for_user env user_id id w).1
unfolding EscrowService.release_for_user EscrowService.refund_for_user
release_for_user-RefusedEscrow env w user_id id row found unlocked =
    let same : Untouched w.escrows (sends w.trace) w = record {
      rows_same = refl;
      sends_same = refl;
    } in
    (
      (Ensures-finalize env w.escrows (sends w.trace) id row _ _ _ user_id found unlocked).at w
          same,
      (Ensures-finalize env w.escrows (sends w.trace) id row _ _ _ user_id found unlocked).at w
          same,
    )
