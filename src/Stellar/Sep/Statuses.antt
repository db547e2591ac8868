-- ===== src/Stellar/Sep/Statuses.antt =====
-- The statuses of packages/stellar/src/sep/sep24.ts.
use mix_match_onchain.Base.{◌≡◌, refl, ◌||◌, ◌&&◌, false, not, ◌==◌}
use mix_match_onchain.Env.Web.{
  AnchorStatus, incomplete, pending_user_transfer_start, pending_user_transfer_complete,
  pending_external, pending_anchor, pending_stellar, pending_trust, pending_user, on_hold,
  completed, refunded, expired, error,
}
use mix_match_onchain.Stellar.Sep.Transfer.{
  has, status_text, sep24_in_progress_statuses, sep24_failure_statuses,
}

-- Every status is of exactly one of three kinds: in progress, a failure, or `completed`.
pub has-not :
    (status : AnchorStatus)
    → (has sep24_in_progress_statuses status
        ≡ not (has sep24_failure_statuses status || (status_text status == "completed")))
      × ((has sep24_failure_statuses status && (status_text status == "completed")) ≡ false)
unfolding has
has-not incomplete = (refl, refl)
has-not pending_user_transfer_start = (refl, refl)
has-not pending_user_transfer_complete = (refl, refl)
has-not pending_external = (refl, refl)
has-not pending_anchor = (refl, refl)
has-not pending_stellar = (refl, refl)
has-not pending_trust = (refl, refl)
has-not pending_user = (refl, refl)
has-not on_hold = (refl, refl)
has-not completed = (refl, refl)
has-not refunded = (refl, refl)
has-not expired = (refl, refl)
has-not error = (refl, refl)
