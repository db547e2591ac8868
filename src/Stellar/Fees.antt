-- ===== src/Stellar/Fees.antt =====
-- packages/stellar/src/fees.ts: the fee per operation.
use mix_match_onchain.Base.{ℕ, String, if◌then◌else◌}
use mix_match_onchain.Exec.{Result, lift, pure, try_catch, ◌>>=◌}
use mix_match_onchain.Error.{Error}
use mix_match_onchain.Env.{Env}
use mix_match_onchain.Env.Sdk.{FeePercentile, Envelope, p70}
use mix_match_onchain.Env.Calls.{fee_stats}
use mix_match_onchain.Stellar.Net.{Net, ask}

abbrev pub default_transaction_timeout_seconds : ℕ
default_transaction_timeout_seconds = 30

module _ (env : Env) where
  -- The fee from Horizon's statistics: `String(Math.max(Number(BASE_FEE), …))`.
  pub surge_fee : String → String
  surge_fee stat =
      let surge = env.number stat in
      env.to_string
        (env.max (env.number env.base_fee) (if env.is_finite surge then surge else env.of_ℕ 0))

  -- `resolveFee`
  unfoldable pub resolve_fee : FeePercentile → Net String
  unfolding surge_fee
  resolve_fee percentile =
      try_catch (do stats ← ask fee_stats env.fee_stats; pure (surge_fee (stats percentile)))
        (λ _. pure env.base_fee)

  -- `buildFeeBump`; `build` is the SDK's, for the source of the fee, the base fee, the inner
  -- transaction and the passphrase.
  unfoldable pub build_fee_bump :
      {FeeBump : Type 0}
      → (String → String → Envelope → String → Result Error FeeBump)
      → Envelope
      → String
      → Net FeeBump
  build_fee_bump build inner_transaction fee_source_public_key = do
    base_fee ← resolve_fee p70
    lift (build fee_source_public_key base_fee inner_transaction env.config.network_passphrase)
