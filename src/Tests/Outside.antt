-- ===== src/Tests/Outside.antt =====
-- Outside parties for the tests: a database and a Vault without faults, a Horizon that accepts
-- every envelope, and numbers by the length of their text.
use mix_match_onchain.Base.{
  ℕ, suc, ◌+◌, ◌-◌, ◌*◌, String, true, false, Option, none, some, List, [], ◌∷◌, ◌==◌, ltb, length,
}
use mix_match_onchain.Exec.{ok, err}
use mix_match_onchain.Error.{plain}
use mix_match_onchain.Env.{Env, Config}
use mix_match_onchain.Env.Sdk.{testnet, PathRecord, PaymentOperation, not_found}
use mix_match_onchain.Env.Web.{AnchorWeb, text, absent, deposit, pending_anchor}
use mix_match_onchain.Env.Tokens.{Credentials, admin}
use mix_match_onchain.Env.Calls.{Trace, sleep}
use mix_match_onchain.Api.Rows.{
  Escrow, released, Account, Transaction, AnchorTransaction, World, TransactionStatus, pending,
  pending_signature, success,
}
use mix_match_onchain.Api.Paths.{SendPaymentInput}
use mix_match_onchain.Stellar.Payment.{SubmitPaymentParams}
use mix_match_onchain.Stellar.Wallet.{keypair}

abbrev pub config : Config
config = record {
  vault_addr = none;
  admin_signing_key_name = none;
  admin_signing_secret = some "admin secret";
  wallet_encryption_key = "key";
  stellar_network = testnet;
  network_passphrase = "Test SDF Network ; September 2015";
  high_value_threshold_amount = "1000";
  reconciliation_stale_ms = 5;
  reconciliation_escalation_ms = 100;
  stellar_escrow_contract_id = some "contract";
  anchor_home_domain = "anchor.example";
}

abbrev text_length : String → ℕ
text_length String.[] = 0
text_length (String.◌∷◌ c s) = suc (text_length s)

-- The dearer record comes first.
abbrev pub routes : List PathRecord
routes =
    record { source_amount = "222"; destination_amount = "1"; path = [] }
    ∷ record { source_amount = "22"; destination_amount = "333"; path = [] }
    ∷ []

-- A payment of another hash, and the payment of `waiting`.
abbrev pub page : List PaymentOperation
page =
    record {
      type = "create_account";
      asset_type = none;
      asset_code = none;
      asset_issuer = none;
      to = none;
      amount = none;
      created_at = "later";
      transaction_hash = "other";
    }
    ∷ record {
      type = "payment";
      asset_type = some "native";
      asset_code = none;
      asset_issuer = none;
      to = some "GBOB";
      amount = some "5";
      created_at = "later";
      transaction_hash = "landed";
    }
    ∷ []

-- A wait takes its time, any other call one millisecond.
abbrev clock : Trace → ℕ
clock [] = 0
clock (sleep ms ∷ t) = suc (ms + clock t)
clock (_ ∷ t) = suc (clock t)

-- An anchor whose stellar.toml is complete and whose challenge has a sequence number that is not 0.
abbrev pub web : AnchorWeb
web = record {
  fetch = λ t r. ok (record { status = 200; text = ok "body" });
  url_with = λ base fields. ok base;
  parse_toml = λ s. ok (record {
    signing_key = some (text "GANCHOR");
    web_auth_endpoint = some (text "https://anchor.example/auth");
    transfer_server_sep0024 = some (text "https://anchor.example/sep24");
    currencies = absent;
  });
  parse_challenge = λ s. ok (record { transaction = "challenge"; network_passphrase = none });
  parse_token = λ s. ok "token";
  parse_interactive = λ s. ok (record { url = "https://anchor.example/form"; id = "transfer" });
  parse_transaction = λ s. err (plain "no transaction");
  read_challenge = λ s p. ok (record {
    sequence = "7";
    envelope = record {
      source = record { account_id = "GANCHOR"; sequence = "6" };
      fee = "100";
      network_passphrase = p;
      operations = [];
      memo = none;
      timeout_seconds = 300;
      signatures = "anchor's" ∷ [];
    };
  });
  check_public_key = λ k. ok tt;
  verify = λ k h s. true;
}

-- A token that carries the subject in its text, and no role.
abbrev pub credentials : Credentials
credentials = record {
  hash_password = λ t p. ok p;
  compare_password = λ p h. p == h;
  sign_token = λ t payload. ok payload.sub;
  verify_token = λ t token. ok (record { sub = token; role = some admin });
  iso = λ n. "1970-01-01T00:00:00.000Z";
}

abbrev pub env : Env
env = record {
  config = config;
  Num = ℕ;
  number = text_length;
  of_ℕ = λ n. n;
  greater = λ a b. ltb b a;
  add = λ a b. a + b;
  subtract = λ a b. a - b;
  times = λ a b. a * b;
  divide = λ a b. a;
  ceil = λ a. a;
  max = λ a b. a + (b - a);
  is_finite = λ a. true;
  to_string = λ a. "1";
  to_fixed = λ a n. "5";
  date_now = clock;
  parse_date = λ s. some 50;
  random_uuid = λ t. "uuid";
  random_keypair = λ t. ("GNEW", "SNEW");
  encrypt_secret_key = λ t s k. ok s;
  decrypt_secret_key = λ s k. ok s;
  parse_big_int = λ s. ok 1;
  show_ℕ = λ n. "1";
  db_fault = λ t. none;
  db_now = λ t. length t;
  db_uuid = λ t. "new row";
  base_fee = "100";
  encode_public_key = λ s. s;
  keypair_from_secret = λ s. ok s;
  keypair_sign = λ s e. s;
  add_signature = λ e k s. ok e;
  envelope_hash = λ e. "hash";
  build = λ e. ok e;
  to_xdr = λ e. "xdr";
  from_xdr = λ s p. err (plain "no envelope");
  validate_payment_params = λ d a m s. none;
  max_sequence_attempts = 3;
  this_client = ok tt;
  horizon_root = λ t. ok "Test SDF Network ; September 2015";
  rpc_network = λ t. ok "Test SDF Network ; September 2015";
  friendbot = λ t k. ok tt;
  load_account = λ t k. ok (record { account_id = k; sequence = "1" });
  fee_stats = λ t. err (plain "no fee stats");
  submit_transaction = λ t e. ok (record { hash = "landed"; ledger = 7 });
  find_transaction = λ t h. ok (record { hash = h; ledger = 7 });
  payments_page = λ t k n. ok page;
  strict_send_paths = λ t s a d. ok routes;
  strict_receive_paths = λ t s d a. ok routes;
  prepare_transaction = λ t e. ok e;
  send_transaction = λ t e. ok (record { is_error = false; hash = "invoked" });
  get_transaction = λ t h. ok not_found;
  simulate_transaction = λ t e. ok none;
  vault_create_key = λ t k. ok tt;
  vault_public_key = λ t k. ok "GVAULT";
  vault_sign = λ t k h. ok "signature";
  web = web;
  credentials = credentials;
}

abbrev pub alice : Account
alice = record {
  id = "account";
  user_id = "alice";
  public_key = "GALICE";
  encrypted_secret_key = some "SALICE";
  signing_key_id = none;
  network = testnet;
  multisig_configured = false;
  created_at = 0;
  updated_at = 0;
}

abbrev pub row_at : (id key : String) → TransactionStatus → (xdr hash : Option String) → Transaction
row_at id key status xdr hash = record {
  id = id;
  idempotency_key = key;
  stellar_account_id = "account";
  destination_public_key = "GBOB";
  amount = "5";
  memo = none;
  asset_code = none;
  asset_issuer = none;
  receive_asset_code = none;
  receive_asset_issuer = none;
  dest_amount = none;
  pending_envelope_xdr = xdr;
  status = status;
  stellar_tx_hash = hash;
  failure_code = none;
  failure_reason = none;
  created_at = 0;
  updated_at = 0;
}

abbrev pub paid : Transaction
paid = row_at "paid" "key of paid" success none (some "hash")

abbrev pub waiting : Transaction
waiting = row_at "waiting" "key of waiting" pending none none

abbrev pub proposed : Transaction
proposed = row_at "proposed" "key of proposed" pending_signature (some "xdr") none

-- An escrow that was released.
abbrev pub closed : Escrow
closed = record {
  id = "closed";
  idempotency_key = "key of closed";
  payer_stellar_account_id = "account";
  payee_public_key = "GBOB";
  token_contract_id = "token";
  amount = "5";
  on_chain_escrow_id = some "1";
  timeout_ledger = some 100;
  status = released;
  deposit_tx_hash = some "deposit";
  finalize_tx_hash = some "release";
  failure_code = none;
  failure_reason = none;
  created_at = 0;
  updated_at = 0;
}

-- A deposit at the anchor that is still in progress.
abbrev pub transfer : AnchorTransaction
transfer = record {
  id = "transfer row";
  stellar_account_id = "account";
  kind = deposit;
  asset_code = "USDC";
  home_domain = "anchor.example";
  sep24_transaction_id = "transfer";
  status = pending_anchor;
  interactive_url = some "https://anchor.example/form";
  more_info_url = none;
  amount_in = none;
  amount_out = none;
  stellar_transaction_id = none;
  external_transaction_id = none;
  message = none;
  started_at = 0;
  completed_at = none;
  created_at = 0;
  updated_at = 0;
}

abbrev pub world : World
world = record {
  accounts = alice ∷ [];
  transactions = paid ∷ waiting ∷ proposed ∷ [];
  escrows = closed ∷ [];
  anchors = transfer ∷ [];
  users = [];
  trace = [];
}

abbrev pub to_bob : Option String → SendPaymentInput
to_bob key = record {
  destination_public_key = "GBOB";
  amount = "5";
  memo = none;
  idempotency_key = key;
  asset_code = none;
  asset_issuer = none;
  receive_asset_code = none;
  receive_asset_issuer = none;
  path_mode = none;
  slippage_bps = none;
}

abbrev pub params : SubmitPaymentParams
params = record {
  source_wallet = record { network = testnet; public_key = "GALICE"; signer = keypair "SALICE" };
  destination_public_key = "GBOB";
  amount = "5";
  memo = none;
  asset = none;
  timeout_seconds = none;
}
