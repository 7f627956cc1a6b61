-- ===== src/Prelude/Pairs.antt =====
-- Lists of which any two elements are related, the earlier one to the later one.
use mathlib.Core.Path.{◌≡◌, subst}
use mathlib.Core.Bool.{Bool, true, false, not}
use mathlib.Core.Logic.{inl, inr}
use mathlib.Core.List.{List, [], ◌∷◌, ◌++◌, map}
use mathlib.Core.Option.{some}
use native.Mathlib.Omega.{arith}
use kvarteret_personal.Prelude.Tests.{Bool-cases, if◌then◌else◌}
use kvarteret_personal.Prelude.Lists.{All, any, filter_by, find_first}

module _ {ℓ} {A : Type ℓ} where
  abbrev pub AllPairs : (A → A → Type 0) → List A → Type 0
  AllPairs R [] = Unit
  AllPairs R (x ∷ xs) = All (R x) xs × AllPairs R xs

  pub All-filter_by :
      (P : A → Type 0) (p : A → Bool) (xs : List A) → All P xs → All P (filter_by p xs)
  All-filter_by P p [] a = tt
  All-filter_by P p (x ∷ xs) a = elim (Bool-cases (p x)) [
    | inl keep ↦ rw keep (a.0, All-filter_by P p xs a.1)
    | inr drop ↦ rw drop (All-filter_by P p xs a.1)
  ]

  -- What a filter has dropped is gone.
  pub filter-All :
      (p : A → Bool) (xs : List A) → All (λ x. p x ≡ false) (filter_by (λ x. not (p x)) xs)
  filter-All p [] = tt
  filter-All p (x ∷ xs) = elim (Bool-cases (p x)) [
    | inl drop ↦ rw drop (filter-All p xs)
    | inr keep ↦ rw keep (keep, filter-All p xs)
  ]

  pub All-of_filter_by :
      (P : A → Type 0) (p : A → Bool) (xs : List A)
      → All P (filter_by p xs)
      → All (λ x. p x ≡ true → P x) xs
  All-of_filter_by P p [] a = tt
  All-of_filter_by P p (x ∷ xs) a = elim (Bool-cases (p x)) [
    | inl keep ↦
        let b : P x × All P (filter_by p xs) =
          subst (λ c. All P (if c then x ∷ filter_by p xs else filter_by p xs)) keep a in
        (λ _. b.0, All-of_filter_by P p xs b.1)
    | inr drop ↦
        let b : All P (filter_by p xs) =
          subst (λ c. All P (if c then x ∷ filter_by p xs else filter_by p xs)) drop a in
        (λ q. absurd (ground (arith, drop, q)), All-of_filter_by P p xs b)
  ]

  pub All-imp : (P Q : A → Type 0) (xs : List A) → ((x : A) → P x → Q x) → All P xs → All Q xs
  All-imp P Q [] f a = tt
  All-imp P Q (x ∷ xs) f a = (f x a.0, All-imp P Q xs f a.1)

  pub All-zip :
      (P Q R : A → Type 0) (xs : List A)
      → ((x : A) → P x → Q x → R x)
      → All P xs
      → All Q xs
      → All R xs
  All-zip P Q R [] f a b = tt
  All-zip P Q R (x ∷ xs) f a b = (f x a.0 b.0, All-zip P Q R xs f a.1 b.1)

  pub All-map :
      (P : A → Type 0) (g : A → A) (xs : List A)
      → ((x : A) → P x → P (g x))
      → All P xs
      → All P (map g xs)
  All-map P g [] f a = tt
  All-map P g (x ∷ xs) f a = (f x a.0, All-map P g xs f a.1)

  -- Of a test that no element passes.
  pub All-any : (p : A → Bool) (xs : List A) → any p xs ≡ false → All (λ x. p x ≡ false) xs
  All-any p [] h = tt
  All-any p (x ∷ xs) h = (ground (arith, h), All-any p xs (ground (arith, h)))

  pub All-find_first :
      (P : A → Type 0) (p : A → Bool) (xs : List A) (a : A)
      → All P xs
      → find_first p xs ≡ some a
      → P a
  All-find_first P p [] a all h = absurd cc
  All-find_first P p (x ∷ xs) a all h = elim (Bool-cases (p x)) [
    | inl same ↦ subst P (ground (arith, same)) all.0
    | inr other ↦ All-find_first P p xs a all.1 (ground (arith, other))
  ]

  -- The first element that passes a test passes it.
  pub found-passes : (p : A → Bool) (xs : List A) (a : A) → find_first p xs ≡ some a → p a ≡ true
  found-passes p [] a h = cc
  found-passes p (x ∷ xs) a h = ground (arith, found-passes p xs a)

  pub AllPairs-filter_by :
      (R : A → A → Type 0) (p : A → Bool) (xs : List A)
      → AllPairs R xs
      → AllPairs R (filter_by p xs)
  AllPairs-filter_by R p [] r = tt
  AllPairs-filter_by R p (x ∷ xs) r = elim (Bool-cases (p x)) [
    | inl keep ↦ rw keep (All-filter_by (R x) p xs r.0, AllPairs-filter_by R p xs r.1)
    | inr drop ↦ rw drop (AllPairs-filter_by R p xs r.1)
  ]

  pub All-end : (P : A → Type 0) (xs : List A) (y : A) → P y → All P xs → All P (xs ++ y ∷ [])
  All-end P [] y p a = (p, tt)
  All-end P (x ∷ xs) y p a = (a.0, All-end P xs y p a.1)

  pub AllPairs-end :
      (R : A → A → Type 0) (xs : List A) (y : A)
      → All (λ x. R x y) xs
      → AllPairs R xs
      → AllPairs R (xs ++ y ∷ [])
  AllPairs-end R [] y a r = (tt, tt)
  AllPairs-end R (x ∷ xs) y a r = (All-end (R x) xs y a.0 r.0, AllPairs-end R xs y a.1 r.1)

  map-All :
      (R : A → A → Type 0) (Q : A → Type 0) (g : A → A) (x : A) (xs : List A)
      → ((y : A) → Q x → Q y → R x y → R (g x) (g y))
      → Q x
      → All Q xs
      → All (R x) xs
      → All (R (g x)) (map g xs)
  map-All R Q g x [] f q qs a = tt
  map-All R Q g x (y ∷ xs) f q qs a = (f y q qs.0 a.0, map-All R Q g x xs f q qs.1 a.1)

  pub AllPairs-map :
      (R : A → A → Type 0) (Q : A → Type 0) (g : A → A) (xs : List A)
      → ((x y : A) → Q x → Q y → R x y → R (g x) (g y))
      → All Q xs
      → AllPairs R xs
      → AllPairs R (map g xs)
  AllPairs-map R Q g [] f qs r = tt
  AllPairs-map R Q g (x ∷ xs) f qs r =
      (map-All R Q g x xs (f x) qs.0 qs.1 r.0, AllPairs-map R Q g xs f qs.1 r.1)
