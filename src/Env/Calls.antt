-- ===== src/Env/Calls.antt =====
-- The calls that leave the process, and their history.
use mix_match_onchain.Base.{ℕ, String, List}
use mix_match_onchain.Env.Sdk.{Asset, Envelope}
use mix_match_onchain.Env.Http.{Request}

pub data Call : Type 0 where
  -- a database statement, and a read of the system's randomness
  statement : Call
  random : Call
  friendbot : String → Call
  load_account : String → Call
  fee_stats : Call
  submit : Envelope → Call
  find_transaction : String → Call
  payments_page : String → Call
  send_paths : Asset → String → Asset → Call
  receive_paths : Asset → Asset → String → Call
  prepare : Envelope → Call
  send : Envelope → Call
  poll : String → Call
  simulate : Envelope → Call
  sleep : ℕ → Call
  vault_create_key : String → Call
  vault_public_key : String → Call
  vault_sign : String → String → Call
  fetch : Request → Call
  horizon_root : Call
  rpc_network : Call

-- The latest call comes first.
abbrev pub Trace : Type 0
Trace = List Call
