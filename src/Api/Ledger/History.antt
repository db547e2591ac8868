-- ===== src/Api/Ledger/History.antt =====
-- The payments service over time: any sequence of its operations, with whatever they answer.
use mix_match_onchain.Base.{String, List, [], ◌∷◌}
use mix_match_onchain.Env.{Env}
use mix_match_onchain.Api.Rows.{Transaction, World}
use mix_match_onchain.Api.Paths.{SendPaymentInput}
use mix_match_onchain.Api.Send
use mix_match_onchain.Api.Approval
use mix_match_onchain.Api.Reconcile
use mix_match_onchain.Stellar.Streaming.{PaymentStreamEvent}
use mix_match_onchain.Api.Owned
use mix_match_onchain.Api.Ledger.Sound.{Evolves, Evolves-refl, IsWellFormed}
use mix_match_onchain.Api.Ledger.Update.{Since}
use mix_match_onchain.Api.Ledger.Operations.{Ensures-send_payment}
use mix_match_onchain.Api.Ledger.Settle.{
  Ensures-approve_pending_signature, Ensures-reject_pending_signature,
}
use mix_match_onchain.Api.Ledger.Requests.{
  Ensures-reconcile_pending_transactions, Ensures-resolve_stream_event,
  Ensures-reconcile_transaction_by_id, Ensures-get_transaction_status,
}

-- The operations of the service that write to the table of transactions.
pub data Request : Type 0 where
  send : (user_id : String) → SendPaymentInput → Request
  approve : (id : String) → Request
  reject : (id : String) → Request
  status : (user_id id : String) → Request
  reconcile : (user_id id : String) → Request
  reconcile_stale : Request
  event : (account_id : String) → PaymentStreamEvent → Request

module _ (env : Env) where
  -- The state that a request leaves, whether it answers or throws.
  unfoldable pub serve : Request → World → World
  serve (send user_id input) w = (Send.send_payment env user_id input w).1
  serve (approve id) w = (Approval.approve_pending_signature env id w).1
  serve (reject id) w = (Approval.reject_pending_signature env id w).1
  serve (status user_id id) w = (Owned.get_transaction_status env user_id id w).1
  serve (reconcile user_id id) w = (Owned.reconcile_transaction_by_id env user_id id w).1
  serve reconcile_stale w = (Reconcile.reconcile_pending_transactions env w).1
  serve (event account_id e) w = (Reconcile.resolve_stream_event env account_id e w).1

  unfoldable pub serve_all : List Request → World → World
  unfolding serve
  serve_all [] w = w
  serve_all (r ∷ rs) w = serve_all rs (serve r w)

  Since-serve :
      (rows : List Transaction) (r : Request) (w : World) → Since rows w → Since rows (serve r w)
  unfolding serve
  Since-serve rows (send user_id input) w h = (Ensures-send_payment env rows user_id input).at w h
  Since-serve rows (approve id) w h = (Ensures-approve_pending_signature env rows id).at w h
  Since-serve rows (reject id) w h = (Ensures-reject_pending_signature env rows id).at w h
  Since-serve rows (status user_id id) w h =
      (Ensures-get_transaction_status env rows user_id id).at w h
  Since-serve rows (reconcile user_id id) w h =
      (Ensures-reconcile_transaction_by_id env rows user_id id).at w h
  Since-serve rows reconcile_stale w h = (Ensures-reconcile_pending_transactions env rows).at w h
  Since-serve rows (event account_id e) w h =
      (Ensures-resolve_stream_event env rows account_id e).at w h

  Since-serve_all :
      (rows : List Transaction) (rs : List Request) (w : World)
      → Since rows w
      → Since rows (serve_all rs w)
  unfolding serve_all
  Since-serve_all rows [] w h = h
  Since-serve_all rows (r ∷ rs) w h = Since-serve_all rows rs (serve r w) (Since-serve rows r w h)

-- From a well-formed table of transactions, after any sequence of requests, whatever the database,
-- Horizon, Vault and the clock answer: the table is well formed (ids and idempotency keys are
-- unique; a row has an envelope exactly while it is PENDING_SIGNATURE; a SUCCESS has its hash, a
-- FAILED or NEEDS_REVIEW row its failure code), and every row of the first table is still at its
-- place with the same terms, its status moved only forward, and unchanged if it was settled.
pub serve_all-Since :
    (env : Env) (rs : List Request) (w : World)
    → IsWellFormed w
    → IsWellFormed (serve_all env rs w) × Evolves w.transactions (serve_all env rs w).transactions
serve_all-Since env rs w h =
    let since : Since w.transactions (serve_all env rs w) =
      Since-serve_all env w.transactions rs w
        (record { well_formed = h; evolves = Evolves-refl w.transactions }) in
    (since.well_formed, since.evolves)
