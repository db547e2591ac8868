-- ===== src/Stellar/Net.antt =====
-- Calls over the network: an action whose state is the history of the calls made so far.
use mix_match_onchain.Base.{◌∷◌}
use mix_match_onchain.Exec.{Result, Exec, throw, try_catch}
use mix_match_onchain.Error.{Error, stellar_payment}
use mix_match_onchain.Env.Calls.{Call, Trace}
use mix_match_onchain.Stellar.Errors.{classify}

abbrev pub Net : Type 0 → Type 0
Net A = Exec Error Trace A

-- One call: the answer may depend on all calls before it.
unfoldable pub ask : {A : Type 0} → Call → (Trace → Result Error A) → Net A
ask call answer t = (answer t, call ∷ t)

-- `try { m } catch (error) { throw classifyStellarPaymentError(error); }`
unfoldable pub classified : {A : Type 0} → Net A → Net A
classified m = try_catch m (λ error. throw (stellar_payment (classify error)))
