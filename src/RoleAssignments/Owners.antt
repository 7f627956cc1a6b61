-- ===== src/RoleAssignments/Owners.antt =====
-- Lists of rows with an id and an owner: which rows a statement on one id leaves alone.
use kvarteret_personal.Prelude.{
  ℕ, true, false, not, some, List, [], ◌∷◌, ◌++◌, ◌≡◌, refl, inl, inr, arith, ◌==◌, Bool-cases,
  find_first, All, All-imp, AllPairs, filter_by, update_where,
}

module _ {A : Type 0} (key owner : A → ℕ) where
  -- The row with an id is the only one with it.
  pub found_owner :
      (R : A → A → Type 0)
      → ((a b : A) → R a b → key a == key b ≡ false)
      → (id : ℕ) (rows : List A) (row : A) → AllPairs R rows
      → find_first (λ a. key a == id) rows ≡ some row
      → All (λ a. key a == id ≡ true → owner a ≡ owner row) rows
  found_owner R apart id [] row r h = tt
  found_owner R apart id (a ∷ rows) row r h = elim (Bool-cases (key a == id)) [
    | inl same ↦ (
      λ _. ground (arith, same, h),
      All-imp (R a) _ rows (λ x p q. absurd (ground (arith, same, apart a x p, q))) r.0,
    )
    | inr other ↦ (
      λ p. absurd (ground (arith, other, p)),
      found_owner R apart id rows row r.1 (ground (arith, other, h)),
    )
  ]

  -- The rows of the other owners.
  unfoldable pub others : ℕ → List A → List A
  others v = filter_by (λ a. not (owner a == v))

  pub others-end :
      (v : ℕ) (rows : List A) (a : A) → owner a ≡ v → others v (rows ++ a ∷ []) ≡ others v rows
  unfolding others
  others-end v [] a h = ground arith
  others-end v (x ∷ rows) a h = ground (arith, others-end v rows a h)

  pub others-delete :
      (v id : ℕ) (rows : List A)
      → All (λ a. key a == id ≡ true → owner a ≡ v) rows
      → others v (filter_by (λ a. not (key a == id)) rows) ≡ others v rows
  unfolding others
  others-delete v id [] own = refl
  others-delete v id (a ∷ rows) own = elim (Bool-cases (key a == id)) [
    | inl same ↦ ground (arith, same, own.0 same, others-delete v id rows own.1)
    | inr other ↦ ground (arith, other, others-delete v id rows own.1)
  ]

  pub others-update :
      (v id : ℕ) (f : A → A) (rows : List A)
      → ((a : A) → owner (f a) ≡ owner a)
      → All (λ a. key a == id ≡ true → owner a ≡ v) rows
      → others v (update_where (λ a. key a == id) f rows) ≡ others v rows
  unfolding others
  others-update v id f [] keeps own = refl
  others-update v id f (a ∷ rows) keeps own = elim (Bool-cases (key a == id)) [
    | inl same ↦ ground (arith, same, keeps a, own.0 same, others-update v id f rows keeps own.1)
    | inr other ↦ ground (arith, other, others-update v id f rows keeps own.1)
  ]
