-- ===== src/Groups/Points.antt =====
-- The numbers of `_validate_role_storage_values` in app/domain/groups/service.py.
use kvarteret_personal.Prelude.{
  ℕ, ◌-◌, ◌%◌, ◌≡◌, ◌≤◌, ◌<◌, refl, subst, ap, ◌∙◌, ◌↔◌, Bool, true, false, not, ◌&&◌, ◌||◌, Option,
  none, some, leb, ltb, arith, if◌then◌else◌, Bool-cases, inl, inr,
}

-- The integers: `negsuc n` is -(n + 1).
pub data ℤ : Type 0 where
  pos negsuc : ℕ → ℤ

-- POSTGRES_INT_MIN and POSTGRES_INT_MAX: -2147483648 and 2147483647
abbrev pub postgres_int_max : ℕ
postgres_int_max = 2147483647

-- `POSTGRES_INT_MIN <= n <= POSTGRES_INT_MAX`
abbrev pub in_int_range : ℤ → Bool
in_int_range (pos n) = leb n postgres_int_max
in_int_range (negsuc n) = leb n postgres_int_max

-- `1 <= n <= POSTGRES_INT_MAX`
abbrev pub is_int_id : ℕ → Bool
is_int_id n = leb 1 n && leb n postgres_int_max

abbrev pub is_int_id_or_none : Option ℕ → Bool
is_int_id_or_none none = true
is_int_id_or_none (some n) = is_int_id n

pub data StorageError : Type 0 where
  invalid_points invalid_ids : StorageError

-- `none` is the return.
unfoldable pub validate_role_storage_values : ℕ → ℤ → Option ℕ → Option StorageError
validate_role_storage_values group_id pingvin_points role_id =
    if not (in_int_range pingvin_points)
    then some invalid_points
    else if not (is_int_id group_id) || not (is_int_id_or_none role_id)
    then some invalid_ids
    else none

-- A column of 32 bits, in two's complement.
abbrev pub to_word : ℤ → ℕ
to_word (pos n) = n % 4294967296
to_word (negsuc n) = 4294967295 - n % 4294967296

abbrev pub of_word : ℕ → ℤ
of_word w = if ltb w 2147483648 then pos w else negsuc (4294967295 - w)

abbrev pos_part : ℤ → ℕ
pos_part (pos n) = n
pos_part (negsuc n) = 0

abbrev neg_part : ℤ → ℕ
neg_part (pos n) = 0
neg_part (negsuc n) = n

abbrev is_neg : ℤ → Bool
is_neg (pos n) = false
is_neg (negsuc n) = true

of_word-pos : (w n : ℕ) → of_word w ≡ pos n → (w ≡ n) × (w < 2147483648)
of_word-pos w n h = elim (Bool-cases (ltb w 2147483648)) [
  | inl low ↦
      let e : pos w ≡ pos n =
        subst (λ b. (if b then pos w else negsuc (4294967295 - w)) ≡ pos n) low h in
      (ap pos_part e, ground (arith, low))
  | inr high ↦
      let e : negsuc (4294967295 - w) ≡ pos n =
        subst (λ b. (if b then pos w else negsuc (4294967295 - w)) ≡ pos n) high h in
      absurd (ground (arith, ap is_neg e))
]

of_word-negsuc : (w n : ℕ) → of_word w ≡ negsuc n → (4294967295 - w ≡ n) × (2147483648 ≤ w)
of_word-negsuc w n h = elim (Bool-cases (ltb w 2147483648)) [
  | inl low ↦
      let e : pos w ≡ negsuc n =
        subst (λ b. (if b then pos w else negsuc (4294967295 - w)) ≡ negsuc n) low h in
      absurd (ground (arith, ap is_neg e))
  | inr high ↦
      let e : negsuc (4294967295 - w) ≡ negsuc n =
        subst (λ b. (if b then pos w else negsuc (4294967295 - w)) ≡ negsuc n) high h in
      (ap neg_part e, ground (arith, high))
]

pos_fits : (n : ℕ) → n ≤ 2147483647 → of_word (n % 4294967296) ≡ pos n
pos_fits n le = let e : n % 4294967296 ≡ n = omega arith in ap of_word e ∙ ground arith

negsuc_fits : (n : ℕ) → n ≤ 2147483647 → of_word (4294967295 - n % 4294967296) ≡ negsuc n
negsuc_fits n le =
    let e : n % 4294967296 ≡ n = omega arith in
    let high : ltb (4294967295 - n) 2147483648 ≡ false = ground arith in
    let back : 4294967295 - (4294967295 - n) ≡ n = omega arith in
    ap (λ m. of_word (4294967295 - m)) e ∙ rw high (ap negsuc back)

pub fits_column : (p : ℤ) → (in_int_range p ≡ true) ↔ (of_word (to_word p) ≡ p)
fits_column (pos n) = (
  λ h. pos_fits n (ground (arith, h)),
  λ h.
      let (e, lt) = of_word-pos (n % 4294967296) n h in
      let le : n ≤ 2147483647 = omega (arith, e, lt) in ground (arith, le),
)
fits_column (negsuc n) = (
  λ h. negsuc_fits n (ground (arith, h)),
  λ h.
      let (e, ge) = of_word-negsuc (4294967295 - n % 4294967296) n h in
      let le : n ≤ 2147483647 = omega (arith, e, ge) in ground (arith, le),
)

abbrev storage_error : Bool → Bool → Bool → Option StorageError
storage_error points group role =
    if not points
    then some invalid_points
    else if not group || not role
    then some invalid_ids
    else none

accepted_points :
    (points group role : Bool) → storage_error points group role ≡ none → points ≡ true
accepted_points true group role h = refl
accepted_points false group role h = absurd cc

accepted_ids :
    (points group role : Bool)
    → storage_error points group role ≡ none
    → (group ≡ true) × (role ≡ true)
accepted_ids true true true h = (refl, refl)
accepted_ids true true false h = absurd cc
accepted_ids true false role h = absurd cc
accepted_ids false group role h = absurd cc

-- The values of a role are accepted exactly if the points come back unchanged from a column of 32
-- bits in two's complement, and the ids are between 1 and the greatest number of such a column.
pub validate_iff :
    (group_id : ℕ) (points : ℤ) (role_id : Option ℕ)
    → (validate_role_storage_values group_id points role_id ≡ none) ↔ (
        (of_word (to_word points) ≡ points)
        × (is_int_id group_id ≡ true)
        × (is_int_id_or_none role_id ≡ true))
unfolding validate_role_storage_values
validate_iff group_id points role_id = (
  λ h.
      let (group, role) =
        accepted_ids (in_int_range points) (is_int_id group_id) (is_int_id_or_none role_id) h in
      ((fits_column points).0 (accepted_points (in_int_range points) _ _ h), group, role),
  λ h. rw ((fits_column points).1 h.0, h.1, h.2) refl,
)
