-- ===== src/Api/Ledger/Update.antt =====
-- One statement of the repository, against the invariant of the table.
use mix_match_onchain.Base.{
  ℕ, String, true, false, Option, none, some, List, [], ◌∷◌, ◌++◌, ◌≡◌, refl, sym, ◌⊎◌, inl, inr,
  arith, is_some, or_else, any, find, All, update_where, Bool-cases,
}
use mix_match_onchain.Exec.{Result, ok, err}
use mix_match_onchain.Exec.Rules.{Ensures}
use mix_match_onchain.Error.{Error}
use mix_match_onchain.Env.{Env}
use mix_match_onchain.Api.Rows.{
  Transaction, TransactionStatus, pending_signature, success, failed, needs_review, World,
}
use mix_match_onchain.Api.Store.Rules.{OnTables, Ensures-statement}
use mix_match_onchain.Api.Transactions
use mix_match_onchain.Api.Transactions.{
  NewTransaction, StatusUpdate, transaction_row, set_status, has_id, transaction_clash,
  is_pending_signature,
}
use mix_match_onchain.Api.Ledger.Table.{
  All-append, All-map, All-find-none, Distinct-append, Distinct-update_where,
}
use mix_match_onchain.Api.Ledger.Sound.{
  IsSound, is_settled, reaches, RowStep, Evolves, Evolves-trans, Evolves-append,
  Evolves-update_where, IsWellFormed,
}

-- The table is well formed, and has evolved from the rows that it once had.
pub record Since (rows : List Transaction) (w : World) : Type 0 where
  pub well_formed : IsWellFormed w
  pub evolves : Evolves rows w.transactions

-- Every row with the id has the status.
abbrev pub HasStatus : String → TransactionStatus → World → Type 0
HasStatus id s w = All (λ row. has_id id row ≡ true → row.status ≡ s) w.transactions

-- What an update may do to rows of a status that is not settled.
pub record IsAllowed (s : TransactionStatus) (u : StatusUpdate) : Type 0 where
  pub unsettled : is_settled s ≡ false
  pub settles : is_settled u.status ≡ true
  pub moves : reaches s u.status ≡ true
  pub clears : s ≡ pending_signature → u.clear_pending_envelope ≡ true
  pub hashed : u.status ≡ success → is_some u.stellar_tx_hash ≡ true
  pub explained : (u.status ≡ failed) ⊎ (u.status ≡ needs_review) → is_some u.failure_code ≡ true

pub OnTables-Since : (rows : List Transaction) → OnTables (Since rows)
OnTables-Since rows = record {
  shift = λ w t h. record {
    well_formed = record { distinct = h.well_formed.distinct; sound = h.well_formed.sound };
    evolves = h.evolves;
  };
}

is_some-or_else {ℓ} :
    {A : Type ℓ} (a b : Option A) → is_some a ≡ true → is_some (or_else a b) ≡ true
is_some-or_else (some x) b h = refl
is_some-or_else none b h = cc

module _ (s : TransactionStatus) (u : StatusUpdate) (now : ℕ) (allowed : IsAllowed s u) where
  set_status-IsSound :
      (row : Transaction) → row.status ≡ s → IsSound row → IsSound (set_status u now row)
  unfolding set_status
  set_status-IsSound row e h = record {
    awaiting = ground (arith, allowed.clears);
    hashed = λ k. is_some-or_else _ _ (allowed.hashed k);
    explained = λ k. is_some-or_else _ _ (allowed.explained k);
  }

  settled_ne : (row : Transaction) → row.status ≡ s → is_settled row.status ≡ true → ⊥
  settled_ne row e k = cc (allowed.unsettled)

  set_status-RowStep : (row : Transaction) → row.status ≡ s → RowStep row (set_status u now row)
  unfolding set_status
  set_status-RowStep row e = record {
    same_terms = refl;
    moved_on = rw e allowed.moves;
    settled = λ k. absurd (settled_ne row e k);
  }

  -- The row-wise facts, from the invariant of the whole table.
  update_where-IsSound :
      (id : String) (rows : List Transaction)
      → All IsSound rows
      → All (λ row. has_id id row ≡ true → row.status ≡ s) rows
      → All IsSound (update_where (has_id id) (set_status u now) rows)
  update_where-IsSound id [] h k = tt
  update_where-IsSound id (row ∷ rows) h k = (
    elim (Bool-cases (has_id id row)) [
      | inl e ↦ rw e (set_status-IsSound row (k.0 e) h.0)
      | inr e ↦ rw e h.0
    ],
    update_where-IsSound id rows h.1 k.1,
  )

  update_where-Evolves :
      (id : String) (rows : List Transaction)
      → All (λ row. has_id id row ≡ true → row.status ≡ s) rows
      → Evolves rows (update_where (has_id id) (set_status u now) rows)
  update_where-Evolves id rows k =
      Evolves-update_where (has_id id) (set_status u now) rows
        (All-map _ _ rows (λ row f e. set_status-RowStep row (f e)) k)

  pub Since-update_where :
      (rows : List Transaction) (id : String) (w : World)
      → Since rows w
      → HasStatus id s w
      → Since rows
          (record w { transactions = update_where (has_id id) (set_status u now) w.transactions })
  Since-update_where rows id w h k = record {
    well_formed = record {
      distinct = Distinct-update_where (has_id id) u now w.transactions h.well_formed.distinct;
      sound = update_where-IsSound id w.transactions h.well_formed.sound k;
    };
    evolves =
        Evolves-trans rows w.transactions _ h.evolves (update_where-Evolves id w.transactions k);
  }

pub transaction_row-IsSound :
    (input : NewTransaction) (id : String) (now : ℕ) → IsSound (transaction_row input id now)
transaction_row-IsSound input id now = record {
  awaiting = ground arith;
  hashed = ground arith;
  explained = ground arith;
}

pub Since-append :
    (rows : List Transaction) (row : Transaction) (w : World)
    → Since rows w
    → IsSound row
    → any (transaction_clash row) w.transactions ≡ false
    → Since rows (record w { transactions = w.transactions ++ (row ∷ []) })
Since-append rows row w h sound free = record {
  well_formed = record {
    distinct = Distinct-append w.transactions row h.well_formed.distinct free;
    sound = All-append _ w.transactions row h.well_formed.sound sound;
  };
  evolves = Evolves-trans rows w.transactions _ h.evolves (Evolves-append w.transactions row);
}

-- The invariant, with the status of the rows of one id.
pub record Open (rows : List Transaction) (id : String) (s : TransactionStatus) (w : World)
    : Type 0 where
  pub since : Since rows w
  pub status : HasStatus id s w

module _ (env : Env) (rows : List Transaction) where
  pub OnTables-Open : (id : String) (s : TransactionStatus) → OnTables (Open rows id s)
  OnTables-Open id s = record {
    shift = λ w t h. record { since = (OnTables-Since rows).shift w t h.since; status = h.status };
  }

  -- After an update: it was made, or it was not, and then the rows are as they were.
  abbrev pub Updated : String → TransactionStatus → Result Error Transaction → World → Type 0
  Updated id s (ok row) w = Since rows w
  Updated id s (err e) w = Open rows id s w

  updated :
      (id : String) (s : TransactionStatus) (u : StatusUpdate) (now : ℕ) (w : World)
      → IsAllowed s u
      → Open rows id s w
      → (found : Option Transaction)
      → found ≡ find (has_id id) (update_where (has_id id) (set_status u now) w.transactions)
      → Updated id s
          (Transactions.updated_transaction id found (record w {
            transactions = update_where (has_id id) (set_status u now) w.transactions;
          })).0
          (Transactions.updated_transaction id found (record w {
            transactions = update_where (has_id id) (set_status u now) w.transactions;
          })).1
  updated id s u now w allowed h none e = record {
    since = Since-update_where s u now allowed rows id w h.since h.status;
    status = All-map _ _ _ (λ row k f. cc) (All-find-none (has_id id) _ (sym e));
  }
  updated id s u now w allowed h (some row) e =
      Since-update_where s u now allowed rows id w h.since h.status

  pub Ensures-update_status :
      (id : String) (s : TransactionStatus) (u : StatusUpdate)
      → IsAllowed s u
      → Ensures (Open rows id s) (Transactions.update_status env id u) (Updated id s)
  unfolding Transactions.update_status
  Ensures-update_status id s u allowed =
      Ensures-statement (OnTables-Open id s) env (Updated id s) _
        (λ w h. updated id s u (env.date_now w.trace) w allowed h _ refl) (λ e w h. h)
