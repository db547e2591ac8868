-- ===== src/Api/Ledger/Sound.antt =====
-- What is true of every row, and the ways in which a row may change.
use mix_match_onchain.Base.{
  ℕ, String, Bool, true, false, none, List, [], ◌∷◌, ◌++◌, ◌≡◌, refl, ap, ◌∙◌, arith, truthy,
  is_some, All, update_where, Bool-cases, inl, inr, ◌⊎◌,
}
use mix_match_onchain.Api.Rows.{
  Transaction, TransactionStatus, pending, pending_signature, success, failed, needs_review, World,
}
use mix_match_onchain.Api.Transactions.{NewTransaction, is_pending_signature}
use mix_match_onchain.Api.Ledger.Table.{Distinct}

-- An envelope is kept exactly while a co-signature is awaited; a success has its hash, a failure
-- or an escalation its code.
pub record IsSound (row : Transaction) : Type 0 where
  pub awaiting : is_pending_signature row.status ≡ truthy row.pending_envelope_xdr
  pub hashed : row.status ≡ success → is_some row.stellar_tx_hash ≡ true
  pub explained :
      (row.status ≡ failed) ⊎ (row.status ≡ needs_review) → is_some row.failure_code ≡ true

-- The statuses with no way out.
abbrev pub is_settled : TransactionStatus → Bool
is_settled pending = false
is_settled pending_signature = false
is_settled _ = true

-- From PENDING and from PENDING_SIGNATURE a status may move on; a co-signed payment never
-- becomes PENDING or NEEDS_REVIEW.
abbrev pub reaches : TransactionStatus → TransactionStatus → Bool
reaches pending pending_signature = false
reaches pending _ = true
reaches pending_signature pending = false
reaches pending_signature needs_review = false
reaches pending_signature _ = true
reaches success success = true
reaches failed failed = true
reaches needs_review needs_review = true
reaches _ _ = false

-- What a row says of its payment: who pays whom, what, under which key, and since when.
abbrev pub terms : Transaction → String × NewTransaction × ℕ
terms row = (
  row.id,
  record {
    idempotency_key = row.idempotency_key;
    stellar_account_id = row.stellar_account_id;
    destination_public_key = row.destination_public_key;
    amount = row.amount;
    memo = row.memo;
    asset_code = row.asset_code;
    asset_issuer = row.asset_issuer;
    receive_asset_code = row.receive_asset_code;
    receive_asset_issuer = row.receive_asset_issuer;
    dest_amount = row.dest_amount;
    pending_envelope_xdr = none;
  },
  row.created_at,
)

-- The terms of the payment never change, the status only moves on, and a settled row
-- does not change at all.
pub record RowStep (a b : Transaction) : Type 0 where
  pub same_terms : terms b ≡ terms a
  pub moved_on : reaches a.status b.status ≡ true
  pub settled : is_settled a.status ≡ true → b ≡ a

-- Each row of the first table stands at its place in the second, with later rows behind.
abbrev pub Evolves : List Transaction → List Transaction → Type 0
Evolves [] later = Unit
Evolves (a ∷ rows) [] = ⊥
Evolves (a ∷ rows) (b ∷ later) = RowStep a b × Evolves rows later

reaches_refl : (s : TransactionStatus) → reaches s s ≡ true
reaches_refl s = ground arith

reaches_trans :
    (s t u : TransactionStatus) → reaches s t ≡ true → reaches t u ≡ true → reaches s u ≡ true
reaches_trans s t u h k = ground arith

pub RowStep-refl : (a : Transaction) → RowStep a a
RowStep-refl a = record { same_terms = refl; moved_on = reaches_refl a.status; settled = λ _. refl }

pub RowStep-trans : (a b c : Transaction) → RowStep a b → RowStep b c → RowStep a c
RowStep-trans a b c h k = record {
  same_terms = k.same_terms ∙ h.same_terms;
  moved_on = reaches_trans a.status b.status c.status h.moved_on k.moved_on;
  settled = λ e.
      let same : b ≡ a = h.settled e in
      k.settled (ap (λ (r : Transaction). is_settled r.status) same ∙ e) ∙ same;
}

pub Evolves-refl : (rows : List Transaction) → Evolves rows rows
Evolves-refl [] = tt
Evolves-refl (a ∷ rows) = (RowStep-refl a, Evolves-refl rows)

pub Evolves-trans : (xs ys zs : List Transaction) → Evolves xs ys → Evolves ys zs → Evolves xs zs
Evolves-trans [] ys zs h k = tt
Evolves-trans (x ∷ xs) (y ∷ ys) (z ∷ zs) h k =
    (RowStep-trans x y z h.0 k.0, Evolves-trans xs ys zs h.1 k.1)
Evolves-trans (x ∷ xs) (y ∷ ys) [] h k = elim k [ ]
Evolves-trans (x ∷ xs) [] zs h k = elim h [ ]

pub Evolves-append :
    (rows : List Transaction) (row : Transaction) → Evolves rows (rows ++ (row ∷ []))
Evolves-append [] row = tt
Evolves-append (a ∷ rows) row = (RowStep-refl a, Evolves-append rows row)

pub Evolves-update_where :
    (p : Transaction → Bool) (f : Transaction → Transaction) (rows : List Transaction)
    → All (λ a. p a ≡ true → RowStep a (f a)) rows
    → Evolves rows (update_where p f rows)
Evolves-update_where p f [] h = tt
Evolves-update_where p f (a ∷ rows) h = (
  elim (Bool-cases (p a)) [ inl e ↦ rw e (h.0 e) | inr e ↦ rw e (RowStep-refl a) ],
  Evolves-update_where p f rows h.1,
)

-- The table of a state: no two rows clash, and every row is sound.
pub record IsWellFormed (w : World) : Type 0 where
  pub distinct : Distinct w.transactions
  pub sound : All IsSound w.transactions
