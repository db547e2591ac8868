-- ===== src/Api/Job.antt =====
-- apps/api/src/modules/payments/reconciliation.job.ts: the scheduler of reconciliation passes.
pub mod Passes
use mix_match_onchain.Base.{
  ℕ, zero, suc, ◌+◌, ◌-◌, ◌≡◌, String, Bool, true, false, Option, none, some, List, [], ◌∷◌, ◌==◌,
  length, or_default, if◌then◌else◌,
}
use mix_match_onchain.Exec.{Result, ok, err}
use mix_match_onchain.Error.{Error}
use mix_match_onchain.Api.Rows.{
  Transaction, TransactionStatus, pending, pending_signature, success, failed, needs_review,
}

abbrev pub status_text : TransactionStatus → String
status_text pending = "PENDING"
status_text pending_signature = "PENDING_SIGNATURE"
status_text success = "SUCCESS"
status_text failed = "FAILED"
status_text needs_review = "NEEDS_REVIEW"

-- An object of JavaScript with numbers for values, by its entries in the order of insertion.
abbrev pub Summary : Type 0
Summary = List (String × ℕ)

-- `summary[key] ?? 0`
abbrev pub entry_of : String → Summary → ℕ
entry_of key [] = 0
entry_of key ((k, n) ∷ rest) = if k == key then n else entry_of key rest

-- `summary[key] = value`
abbrev pub set_entry : String → ℕ → Summary → Summary
set_entry key value [] = (key, value) ∷ []
set_entry key value ((k, n) ∷ rest) =
    let later = set_entry key value rest in if k == key then (k, value) ∷ rest else (k, n) ∷ later

abbrev count_in : Summary → Transaction → Summary
count_in summary row =
    set_entry (status_text row.status) (suc (entry_of (status_text row.status) summary)) summary

-- The loop of `summarizeByStatus`.
unfoldable pub summarize_from : Summary → List Transaction → Summary
summarize_from summary [] = summary
summarize_from summary (row ∷ rows) = summarize_from (count_in summary row) rows

-- `summarizeByStatus`
abbrev pub summarize_by_status : List Transaction → Summary
summarize_by_status = summarize_from []

-- What the job writes to its log.
pub data Line : Type 0 where
  skipped : Line
  processed : ℕ → Summary → Line
  pass_failed : Error → Line

-- The field `isRunning`, the passes that `reconcilePendingTransactions` was called for and that have
-- not settled, and the log, the latest line first.
pub record Job : Type 0 where
  pub is_running : Bool
  pub in_flight : ℕ
  pub log : List Line

abbrev pub idle : Job
idle = record { is_running = false; in_flight = 0; log = [] }

-- `runOnce`, until its `await`
unfoldable pub run_once : Job → Job
run_once job =
    if job.is_running
    then record job { log = skipped ∷ job.log }
    else record job { is_running = true; in_flight = suc job.in_flight }

abbrev pub line_of : Result Error (List Transaction) → Line
line_of (ok results) = processed (length results) (summarize_by_status results)
line_of (err error) = pass_failed error

-- `runOnce`, from its `await` on, when the pass settles
unfoldable pub settle : Result Error (List Transaction) → Job → Job
settle outcome job = record job {
  is_running = false;
  in_flight = job.in_flight - 1;
  log = line_of outcome ∷ job.log;
}

-- The timer ticks, or a pass in flight settles.
infix 4 ◌⟶◌
pub data ◌⟶◌ (job : Job) : Job → Type 0 where
  tick : job ⟶ run_once job
  settles :
      (n : ℕ) (outcome : Result Error (List Transaction))
      → job.in_flight ≡ suc n
      → job ⟶ settle outcome job

pub data Reach : Job → Type 0 where
  start : Reach idle
  next : {job later : Job} → Reach job → job ⟶ later → Reach later
