-- ===== src/Tests/Runs.antt =====
-- Runs of the service on a small table.
use mix_match_onchain.Base.{List, [], ◌∷◌, ◌≡◌, refl, map}
use mix_match_onchain.Exec.{pure, throw, ◌>>=◌}
use mix_match_onchain.Api.Store.{statement}
use mix_match_onchain.Api.Rows.{Transaction, TransactionStatus, pending, success, failed, World}
use mix_match_onchain.Api.Transactions
use mix_match_onchain.Api.Approval
use mix_match_onchain.Api.Ledger.History.{reject, serve_all}
use mix_match_onchain.Tests.Outside.{env, world}

abbrev statuses : World → List TransactionStatus
statuses w = map (λ (row : Transaction). row.status) w.transactions

-- A rejection of the proposed row.
run_of_reject :
    statuses (serve_all env (reject "proposed" ∷ []) world) ≡ success ∷ pending ∷ failed ∷ []
unfolding serve_all Approval.reject_pending_signature ◌>>=◌
    Approval.get_pending_signature_transaction Transactions.find_by_id Transactions.update_status
    Transactions.set_status statement pure throw
run_of_reject = refl
