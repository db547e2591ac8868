-- ===== src/Api/Store.antt =====
-- Actions of the API: a statement to the database, which may fail, or a call of the payment engine.
pub mod Rules
use mix_match_onchain.Base.{Option, none, some, ◌∷◌, Bool, false, ◌==◌}
use mix_match_onchain.Exec.{Result, err, Exec}
use mix_match_onchain.Error.{Error, database}
use mix_match_onchain.Env.{Env}
use mix_match_onchain.Env.Calls.{Call}
use mix_match_onchain.Stellar.Net.{Net}
use mix_match_onchain.Api.Rows.{World}

abbrev pub App : Type 0 → Type 0
App A = Exec Error World A

-- A call of packages/stellar or packages/kms: no table changes.
unfoldable pub net : {A : Type 0} → Net A → App A
net m w = let (r, t) = m w.trace in (r, record w { trace = t })

-- The error of a violated unique constraint.
abbrev pub unique_violation : Error
unique_violation = database "23505" "duplicate key value violates unique constraint"

-- `isUniqueViolation`
abbrev pub is_unique_violation : Error → Bool
is_unique_violation (database code m) = code == "23505"
is_unique_violation _ = false

module _ (env : Env) where
  abbrev pub unless_fault : {A : Type 0} → Option Error → App A → World → Result Error A × World
  unless_fault none m w = m w
  unless_fault (some e) m w = (err e, w)

  -- A statement that fails, if it does, before it has an effect.
  unfoldable pub statement : {A : Type 0} → App A → App A
  statement m w =
      unless_fault (env.db_fault w.trace) m (record w { trace = Call.statement ∷ w.trace })
