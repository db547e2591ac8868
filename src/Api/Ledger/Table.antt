-- ===== src/Api/Ledger/Table.antt =====
-- The table as a list: no two rows clash, and lookups after an insertion or an update.
use mathlib.Core.Path.{subst}
use mix_match_onchain.Base.{
  ℕ, Bool, true, false, ◌||◌, none, some, List, [], ◌∷◌, ◌++◌, ◌≡◌, refl, ◌∙◌, inl, inr, arith,
  eq_iff, find, any, select, All, update_where, Bool-cases,
}
use mix_match_onchain.Api.Rows.{Transaction}
use mix_match_onchain.Api.Transactions.{StatusUpdate, set_status, has_id, transaction_clash}

-- No row has the id or the idempotency key of a row before it.
abbrev pub Distinct : List Transaction → Type 0
Distinct [] = Unit
Distinct (row ∷ rows) = (any (transaction_clash row) rows ≡ false) × Distinct rows

module _ {ℓ} {A : Type ℓ} where
  pub All-append {κ} :
      (P : A → Type κ) (xs : List A) (y : A) → All P xs → P y → All P (xs ++ (y ∷ []))
  All-append P [] y h p = (p, tt)
  All-append P (x ∷ xs) y h p = (h.0, All-append P xs y h.1 p)

  pub All-unit : (xs : List A) → All (λ _. Unit {0}) xs
  All-unit [] = tt
  All-unit (x ∷ xs) = (tt, All-unit xs)

  pub All-map {κ ι} :
      (P : A → Type κ) (Q : A → Type ι) (xs : List A) → ((x : A) → P x → Q x) → All P xs → All Q xs
  All-map P Q [] f h = tt
  All-map P Q (x ∷ xs) f h = (f x h.0, All-map P Q xs f h.1)

  pub All-update_where {κ} :
      (P : A → Type κ) (p : A → Bool) (f : A → A) (xs : List A)
      → All (λ x. P x × (p x ≡ true → P (f x))) xs
      → All P (update_where p f xs)
  All-update_where P p f [] h = tt
  All-update_where P p f (x ∷ xs) h = (
    elim (Bool-cases (p x)) [ inl e ↦ rw e (h.0.1 e) | inr e ↦ rw e h.0.0 ],
    All-update_where P p f xs h.1,
  )

  pub All-find {κ} :
      (P : A → Type κ) (p : A → Bool) (xs : List A) {x : A}
      → All P xs
      → find p xs ≡ some x
      → P x × (p x ≡ true)
  All-find P p [] h e = cc
  All-find P p (y ∷ ys) {x} h e = elim (Bool-cases (p y)) [
    | inl c ↦
        let found : some y ≡ some x = rw c at e in
        let same : y ≡ x = cc in (subst P same h.0, subst (λ z. p z ≡ true) same c)
    | inr c ↦ All-find P p ys h.1 (rw c at e)
  ]

any-append :
    (p : Transaction → Bool) (rows : List Transaction) (row : Transaction)
    → any p (rows ++ (row ∷ [])) ≡ (any p rows || p row)
any-append p [] row = ground arith
any-append p (r ∷ rows) row = ground (arith, any-append p rows row)

clash_comm : (a b : Transaction) → transaction_clash a b ≡ transaction_clash b a
clash_comm a b = ground (
  arith,
  eq_iff a.id b.id,
  eq_iff b.id a.id,
  eq_iff a.idempotency_key b.idempotency_key,
  eq_iff b.idempotency_key a.idempotency_key,
)

pub Distinct-append :
    (rows : List Transaction) (row : Transaction)
    → Distinct rows
    → any (transaction_clash row) rows ≡ false
    → Distinct (rows ++ (row ∷ []))
Distinct-append [] row d h = (refl, tt)
Distinct-append (r ∷ rows) row d h = (
  ground (arith, any-append (transaction_clash r) rows row, clash_comm row r),
  Distinct-append rows row d.1 (ground arith),
)

module _ (p : Transaction → Bool) (u : StatusUpdate) (now : ℕ) where
  any_clash-update_where :
      (row : Transaction) (rows : List Transaction)
      → any (transaction_clash row) (update_where p (set_status u now) rows)
        ≡ any (transaction_clash row) rows
  unfolding set_status
  any_clash-update_where row [] = refl
  any_clash-update_where row (r ∷ rows) = ground (arith, any_clash-update_where row rows)

  -- An update of the status leaves the ids and keys alone.
  pub Distinct-update_where :
      (rows : List Transaction) → Distinct rows → Distinct (update_where p (set_status u now) rows)
  unfolding set_status
  Distinct-update_where [] d = tt
  Distinct-update_where (r ∷ rows) d =
      (ground (arith, any_clash-update_where r rows), Distinct-update_where rows d.1)

module _ {ℓ} {A : Type ℓ} (p : A → Bool) where
  pub All-any-false : (xs : List A) → any p xs ≡ false → All (λ x. p x ≡ false) xs
  All-any-false [] h = tt
  All-any-false (x ∷ xs) h = elim (Bool-cases (p x)) [
    | inl e ↦ cc (rw e at h)
    | inr e ↦ (e, All-any-false xs (rw e at h))
  ]

  pub All-find-none : (xs : List A) → find p xs ≡ none → All (λ x. p x ≡ false) xs
  All-find-none [] h = tt
  All-find-none (x ∷ xs) h = elim (Bool-cases (p x)) [
    | inl e ↦ cc (rw e at h)
    | inr e ↦ (e, All-find-none xs (rw e at h))
  ]

  pub All-select {κ} :
      (P : A → Type κ) (xs : List A) → All P xs → All (λ x. P x × (p x ≡ true)) (select p xs)
  All-select P [] h = tt
  All-select P (x ∷ xs) h = elim (Bool-cases (p x)) [
    | inl e ↦ rw e ((h.0, e), All-select P xs h.1)
    | inr e ↦ rw e (All-select P xs h.1)
  ]

pub not_clash-has_id :
    (a b : Transaction) → transaction_clash a b ≡ false → has_id a.id b ≡ true → ⊥
not_clash-has_id a b h k = ground arith

-- In a table without clashes an id names one row, so also one status.
pub All-status_of_id :
    (rows : List Transaction)
    → Distinct rows
    → All (λ a. All (λ b. has_id a.id b ≡ true → b.status ≡ a.status) rows) rows
All-status_of_id [] d = tt
All-status_of_id (row ∷ rows) d =
    let free = All-any-false (transaction_clash row) rows d.0 in
    (
      (λ _. refl, All-map _ _ rows (λ b e k. absurd (not_clash-has_id row b e k)) free),
      All-both rows free (All-status_of_id rows d.1),
    )
  where
    All-both :
        (others : List Transaction)
        → All (λ x. transaction_clash row x ≡ false) others
        → All (λ a. All (λ b. has_id a.id b ≡ true → b.status ≡ a.status) rows) others
        → All (λ a. All (λ b. has_id a.id b ≡ true → b.status ≡ a.status) (row ∷ rows)) others
    All-both [] f h = tt
    All-both (a ∷ others) f h = (
      (λ k. absurd (not_clash-has_id a row (clash_comm a row ∙ f.0) k), h.0),
      All-both others f.1 h.1,
    )

-- No two rows of the list have one id.
abbrev pub Apart : List Transaction → Type 0
Apart [] = Unit
Apart (row ∷ rows) = All (λ other. has_id row.id other ≡ false) rows × Apart rows

All-apart-select :
    (p : Transaction → Bool) (row : Transaction) (rows : List Transaction)
    → any (transaction_clash row) rows ≡ false
    → All (λ other. has_id row.id other ≡ false) (select p rows)
All-apart-select p row rows h =
    All-map _ _ _ (λ b e. e.0)
      (All-select p _ rows (
        All-map _ _ rows (λ b (e : transaction_clash row b ≡ false). not_clash-not_id row b e)
          (All-any-false (transaction_clash row) rows h)))
  where
    not_clash-not_id : (a b : Transaction) → transaction_clash a b ≡ false → has_id a.id b ≡ false
    not_clash-not_id a b e = ground arith

pub Apart-select :
    (p : Transaction → Bool) (rows : List Transaction) → Distinct rows → Apart (select p rows)
Apart-select p [] d = tt
Apart-select p (row ∷ rows) d = elim (Bool-cases (p row)) [
  | inl e ↦ rw e (All-apart-select p row rows d.0, Apart-select p rows d.1)
  | inr e ↦ rw e (Apart-select p rows d.1)
]
