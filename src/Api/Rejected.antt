-- ===== src/Api/Rejected.antt =====
-- What an administrator's rejection does (apps/api, payments.service.ts, `rejectPendingSignature`).
use mix_match_onchain.Base.{String, Bool, true, false, ◌&&◌, none, some, ◌∷◌, ◌≡◌, find, truthy}
use mix_match_onchain.Exec.{Result, ok, err}
use mix_match_onchain.Error.{Error}
use mix_match_onchain.Env.{Env}
use mix_match_onchain.Env.Calls.{Call}
use mix_match_onchain.Api.Rows.{Transaction, World, failed}
use mix_match_onchain.Api.Store.{statement}
use mix_match_onchain.Api.Transactions
use mix_match_onchain.Api.Transactions.{has_id, is_pending_signature}
use mix_match_onchain.Api.Approval
use mix_match_onchain.Api.Settled.{IsSame}

-- The row waits for a co-signature, and has the envelope to sign.
abbrev pub awaits : Transaction → Bool
awaits row = is_pending_signature row.status && truthy row.pending_envelope_xdr

-- The row is FAILED as rejected.
pub record IsRejected (after : Transaction) : Type 0 where
  pub status : after.status ≡ failed
  pub failure_code : after.failure_code ≡ some "admin_rejected"

-- A row that awaits a signature is rejected, loses its envelope, and is answered with; any other is
-- refused, and the table stays.
abbrev pub Decision :
    Bool → String → World → Transaction → Result Error Transaction × World → Type 0
Decision true id w row outcome =
    (after : Transaction) × (find (has_id id) outcome.1.transactions ≡ some after)
    × IsSame true row after
    × IsRejected after
    × (outcome.0 ≡ ok after)
Decision false id w row outcome =
    ((e : Error) × (outcome.0 ≡ err e)) × (outcome.1.transactions ≡ w.transactions)

module _ (env : Env) (w : World) (id : String) (row : Transaction)
    (free : env.db_fault w.trace ≡ none) (found : find (has_id id) w.transactions ≡ some row) where
  abbrev read : World
  read = record w { trace = Call.statement ∷ w.trace }
