-- ===== src/Api/Job/Passes.antt =====
-- Passes of the reconciliation job (apps/api, reconciliation.job.ts), and what it logs of them.
use mix_match_onchain.Base.{
  equal_text, same_text_true, true_ne, ℕ, suc, ◌+◌, ◌≡◌, refl, sym, ap, ◌∙◌, ◌⊎◌, inl, inr, String,
  true, false, Bool-cases, List, [], ◌∷◌, ◌==◌, length, arith, if◌then◌else◌, select,
}
use mix_match_onchain.Exec.{Result}
use mix_match_onchain.Error.{Error}
use mix_match_onchain.Api.Rows.{Transaction}
use mix_match_onchain.Api.Job.{
  Job, run_once, settle, Reach, tick, settles, start, next, Summary, entry_of, set_entry,
  summarize_from, summarize_by_status, status_text, count_in,
}

-- The flag is set exactly while one pass is in flight, and there is never a second one.
abbrev pub IsSingle : Job → Type 0
IsSingle job =
    ((job.is_running ≡ true) × (job.in_flight ≡ 1))
    ⊎ ((job.is_running ≡ false) × (job.in_flight ≡ 0))

run_once-IsSingle : (job : Job) → IsSingle job → IsSingle (run_once job)
unfolding run_once
run_once-IsSingle job (inl (r, n)) = rw r (inl (refl, n))
run_once-IsSingle job (inr (r, n)) = rw r (inl (refl, ap (λ m. suc m) n))

settle-IsSingle :
    (job : Job) (outcome : Result Error (List Transaction))
    → IsSingle job
    → IsSingle (settle outcome job)
unfolding settle
settle-IsSingle job outcome (inl (r, n)) = inr (refl, omega (arith, n))
settle-IsSingle job outcome (inr (r, n)) = inr (refl, omega (arith, n))

-- However the timer's ticks and the ends of passes are ordered, at most one pass is in flight, and
-- the flag is set exactly while one is.
pub Reach-IsSingle : (job : Job) → Reach job → IsSingle job
Reach-IsSingle job start = inr (refl, refl)
Reach-IsSingle job (next r tick) = run_once-IsSingle _ (Reach-IsSingle _ r)
Reach-IsSingle job (next r (settles n outcome e)) = settle-IsSingle _ outcome (Reach-IsSingle _ r)

-- The rows with a status, by its text.
abbrev pub with_status : String → List Transaction → List Transaction
with_status key rows = select (λ row. status_text row.status == key) rows

set_here :
    (key other : String) (n : ℕ) (k : String) (m : ℕ) (rest : Summary)
    → k ≡ other
    → (if k == key then n else entry_of key rest)
      ≡ (if other == key then n else (if k == key then m else entry_of key rest))
set_here key other n k m rest e =
    rw (sym e) (elim (Bool-cases (k == key)) [ inl g ↦ rw g refl | inr g ↦ rw g refl ])

other_key :
    (k other key : String) → (k == other) ≡ false → (k == key) ≡ true → (other == key) ≡ false
other_key k other key f g = elim (Bool-cases (other == key)) [
  | inl h ↦ absurd (
      true_ne (k == other)
        (same_text_true k other (equal_text k key g ∙ sym (equal_text other key h))) f)
  | inr h ↦ h
]

if_other :
    (other key : String) (n m : ℕ) → (other == key) ≡ false → (if other == key then n else m) ≡ m
if_other other key n m f = rw f refl

entry_of-set_entry :
    (key other : String) (n : ℕ) (summary : Summary)
    → entry_of key (set_entry other n summary) ≡ (if other == key then n else entry_of key summary)
entry_of-set_entry key other n [] = refl
entry_of-set_entry key other n ((k, m) ∷ rest) = elim (Bool-cases (k == other)) [
  | inl t ↦ rw t (set_here key other n k m rest (equal_text k other t))
  | inr f ↦ rw f (elim (Bool-cases (k == key)) [
    | inl g ↦ rw g (sym (if_other other key n m (other_key k other key f g)))
    | inr g ↦ rw g (entry_of-set_entry key other n rest)
  ])
]

counted :
    (key text : String) (row : Transaction) (summary : Summary) (rows : List Transaction)
    → (if text == key then suc (entry_of text summary) else entry_of key summary) + length rows
      ≡ entry_of key summary + length (if text == key then row ∷ rows else rows)
counted key text row summary rows = elim (Bool-cases (text == key)) [
  | inl t ↦ rw t (rw (equal_text text key t) (omega arith))
  | inr f ↦ rw f refl
]

entry_of-summarize_from :
    (key : String) (summary : Summary) (rows : List Transaction)
    → entry_of key (summarize_from summary rows)
      ≡ entry_of key summary + length (with_status key rows)
unfolding summarize_from
entry_of-summarize_from key summary [] = omega arith
entry_of-summarize_from key summary (row ∷ rows) =
    entry_of-summarize_from key (count_in summary row) rows
    ∙ ap (λ n. n + length (with_status key rows))
        (entry_of-set_entry key (status_text row.status)
          (suc (entry_of (status_text row.status) summary)) summary)
    ∙ counted key (status_text row.status) row summary (with_status key rows)

-- The summary of a pass has, under each status, the number of the rows with that status.
pub entry_of-summarize :
    (key : String) (rows : List Transaction)
    → entry_of key (summarize_by_status rows) ≡ length (with_status key rows)
entry_of-summarize key rows = omega (arith, entry_of-summarize_from key [] rows)
