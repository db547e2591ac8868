-- ===== src/Stellar/Contract.antt =====
-- packages/stellar/src/escrow.ts: the escrow contract, through the Soroban RPC. An address that the
-- SDK refuses is refused by `build`.
use mix_match_onchain.Base.{
  ℕ, zero, suc, ◌-◌, String, Bool, Option, none, some, List, [], ◌∷◌, ltb, concat, if◌then◌else◌,
}
use mix_match_onchain.Exec.{Result, ok, err, pure, throw, lift, ◌>>=◌, ◌>>◌}
use mix_match_onchain.Error.{Error, plain, soroban_invocation, out_of_rounds}
use mix_match_onchain.Env.{Env}
use mix_match_onchain.Env.Sdk.{
  RawStatus, text, keyed, ScVal, address, i128, u64, u32, escrow, contract_call, p70, SendResult,
  TransactionOutcome, not_found, success,
}
use mix_match_onchain.Env.Calls.{Trace, load_account, prepare, send, poll, simulate, sleep, random}
use mix_match_onchain.Stellar.Net.{Net, ask}
use mix_match_onchain.Stellar.Wallet.{Wallet, sign}
use mix_match_onchain.Stellar.Fees.{default_transaction_timeout_seconds, resolve_fee}

abbrev pub poll_interval_ms : ℕ
poll_interval_ms = 1000

abbrev pub poll_timeout_ms : ℕ
poll_timeout_ms = 30000

-- The rounds that the polling loop is given: one more than the intervals in the timeout, and the
-- first look.
abbrev pub poll_rounds : ℕ
poll_rounds = 32

-- `EscrowRecord` of packages/stellar
pub record ContractEscrow : Type 0 where
  pub payer : String
  pub payee : String
  pub token : String
  pub amount : String
  pub status : Option String
  pub timeout_ledger : ℕ

pub record InvocationResult : Type 0 where
  pub hash : String
  pub return_value : Option ScVal

pub record DepositEscrowParams : Type 0 where
  pub contract_id : String
  pub payer_wallet : Wallet
  pub payee_public_key : String
  pub token_contract_id : String
  pub amount : String
  pub timeout_ledgers : ℕ

pub record DepositEscrowResult : Type 0 where
  pub escrow_id : Option ℕ
  pub hash : String

-- The status of the contract's struct: the text, or the first key of the object.
abbrev pub status_text : RawStatus → Option String
status_text (text s) = some s
status_text (keyed []) = none
status_text (keyed (k ∷ ks)) = some k

-- `value as bigint`: undefined when nothing, or no integer, came back.
abbrev pub as_big_int : Option ScVal → Option ℕ
as_big_int (some (u64 n)) = some n
as_big_int (some (i128 n)) = some n
as_big_int _ = none

-- `u64Arg`; `BigInt(undefined)` throws.
abbrev pub u64_arg : Option ℕ → Result Error ScVal
u64_arg none = err (plain "Cannot convert undefined to a BigInt")
u64_arg (some n) = ok (u64 n)

module _ (env : Env) where
  -- `toEscrowRecord`
  to_escrow_record : Option ScVal → Net ContractEscrow
  to_escrow_record (some (escrow payer payee token amount status timeout_ledger)) = pure (record {
    payer = payer;
    payee = payee;
    token = token;
    amount = env.show_ℕ amount;
    status = status_text status;
    timeout_ledger = timeout_ledger;
  })
  to_escrow_record _ = throw (plain "Cannot read properties of undefined")

  -- The status of a transaction, by its hash.
  unfoldable pub look : String → Net TransactionOutcome
  look hash = ask (poll hash) (λ t. env.get_transaction t hash)

  unfoldable pub wait : Net Unit
  wait = ask (sleep poll_interval_ms) (λ _. ok tt)

  abbrev pub timed_out : ℕ → Trace → Bool
  timed_out start t = ltb poll_timeout_ms (env.date_now t - start)

  -- `while (getResult.status === NOT_FOUND)`, by the rounds left.
  unfoldable pub poll_until : ℕ → String → ℕ → String → TransactionOutcome → Net TransactionOutcome
  unfolding look wait
  poll_until zero method start hash outcome t = throw out_of_rounds t
  poll_until (suc left) method start hash not_found t =
      let again = (do wait; outcome ← look hash; poll_until left method start hash outcome) in
      if timed_out start t
      then throw
          (soroban_invocation (
            concat "Timed out waiting for '"
              (concat method (concat "' transaction " (concat hash " to land")))))
          t
      else again t
  poll_until (suc left) method start hash outcome t = pure outcome t

  pub settle : String → String → TransactionOutcome → Net InvocationResult
  settle method hash (success value) = pure (record { hash = hash; return_value = value })
  settle method hash _ =
      throw (soroban_invocation (concat "Soroban '" (concat method "' transaction failed")))

  -- `Date.now()`
  now : Net ℕ
  now t = (ok (env.date_now t), t)

  sent : String → SendResult → Net InvocationResult
  unfolding poll_until settle now look
  sent method result =
      if result.is_error
      then throw
          (soroban_invocation (concat "Soroban submission for '" (concat method "' was rejected")))
      else do
        start ← now
        first ← look result.hash
        outcome ← poll_until poll_rounds method start result.hash first
        settle method result.hash outcome

  -- `submitInvocation`
  unfoldable pub submit_invocation : String → String → List ScVal → Wallet → Net InvocationResult
  unfolding sent
  submit_invocation contract_id method args signer_wallet = do
    source_account ←
        ask (load_account signer_wallet.public_key)
          (λ t. env.load_account t signer_wallet.public_key)
    fee ← resolve_fee env p70
    transaction ← lift (
        env.build (record {
          source = source_account;
          fee = fee;
          network_passphrase = env.config.network_passphrase;
          operations = contract_call contract_id method args ∷ [];
          memo = none;
          timeout_seconds = default_transaction_timeout_seconds;
          signatures = [];
        }))
    prepared ← ask (prepare transaction) (λ t. env.prepare_transaction t transaction)
    signed ← sign env signer_wallet prepared
    result ← ask (send signed) (λ t. env.send_transaction t signed)
    sent method result

  -- `simulateReadOnly`: from a throwaway account with the sequence number 0.
  unfoldable pub simulate_read_only : String → String → List ScVal → Net (Option ScVal)
  simulate_read_only contract_id method args = do
    pair ← ask random (λ t. ok (env.random_keypair t))
    fee ← resolve_fee env p70
    transaction ← lift (
        env.build (record {
          source = record { account_id = pair.0; sequence = "0" };
          fee = fee;
          network_passphrase = env.config.network_passphrase;
          operations = contract_call contract_id method args ∷ [];
          memo = none;
          timeout_seconds = default_transaction_timeout_seconds;
          signatures = [];
        }))
    ask (simulate transaction) (λ t. env.simulate_transaction t transaction)

  -- `depositToEscrow`
  unfoldable pub deposit_to_escrow : DepositEscrowParams → Net DepositEscrowResult
  deposit_to_escrow params = do
    amount ← lift (env.parse_big_int params.amount)
    result ←
        submit_invocation params.contract_id "deposit"
          (address params.payer_wallet.public_key
            ∷ address params.payee_public_key
            ∷ address params.token_contract_id
            ∷ i128 amount
            ∷ u32 params.timeout_ledgers
            ∷ [])
          params.payer_wallet
    pure (record { escrow_id = as_big_int result.return_value; hash = result.hash })

  -- `releaseEscrow`, `refundEscrow`: the method's name, the escrow, and who signs.
  unfoldable pub finalize_escrow : String → String → Option ℕ → Wallet → Net String
  finalize_escrow method contract_id escrow_id signer_wallet = do
    id ← lift (u64_arg escrow_id)
    result ← submit_invocation contract_id method (id ∷ []) signer_wallet
    pure result.hash

  abbrev pub release_escrow : String → Option ℕ → Wallet → Net String
  release_escrow = finalize_escrow "release"

  abbrev pub refund_escrow : String → Option ℕ → Wallet → Net String
  refund_escrow = finalize_escrow "refund"

  -- `getEscrow`
  unfoldable pub get_escrow : String → Option ℕ → Net ContractEscrow
  unfolding to_escrow_record
  get_escrow contract_id escrow_id = do
    id ← lift (u64_arg escrow_id)
    raw ← simulate_read_only contract_id "get_escrow" (id ∷ [])
    to_escrow_record raw
