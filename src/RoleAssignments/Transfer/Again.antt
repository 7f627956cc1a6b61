-- ===== src/RoleAssignments/Transfer/Again.antt =====
-- Who has a row after apply_transfer of app/domain/role_assignments/semester_transfer.py, and what a
-- second transfer does.
use kvarteret_personal.Prelude.{
  ℕ, Bool, true, not, ◌&&◌, ◌||◌, List, [], ◌∷◌, ◌≡◌, refl, inl, inr, arith, ◌==◌, any, filter_by,
  map, All, Bool-cases, ap, subst, All-imp,
}
use kvarteret_personal.Volunteers.{RoleAssignment}
use kvarteret_personal.RoleAssignments.Transfer.{
  SemesterTransferEntry, existing_volunteers, transfer_values,
}

-- The volunteer has a row of the group in the semester.
abbrev pub has_row : ℕ → ℕ → ℕ → List RoleAssignment → Bool
has_row group_id semester volunteer_id = any (λ (a : RoleAssignment).
    (a.group_id == group_id && a.semester == semester) && a.volunteer_id == volunteer_id)

listed :
    (v w : ℕ) (ids : List ℕ)
    → any (λ id. id == v) ids ≡ true
    → not (w == v) || any (λ id. id == w) ids ≡ true
listed v w ids h = elim (Bool-cases (w == v)) [
  | inl same ↦
      let e : v ≡ w = ground (arith, same) in
      rw same (subst (λ u. any (λ id. id == u) ids ≡ true) e h)
  | inr other ↦ rw other refl
]

-- A volunteer of the entries is an existing one exactly if it has a row.
existing_cases :
    (g t v : ℕ) (ids : List ℕ) (rows : List RoleAssignment)
    → any (λ id. id == v) ids ≡ true
    → any (λ id. id == v) (existing_volunteers g t ids rows) ≡ has_row g t v rows
unfolding existing_volunteers
existing_cases g t v ids [] h = refl
existing_cases g t v ids (a ∷ rows) h =
    ground (arith, existing_cases g t v ids rows h, listed v a.volunteer_id ids h)

-- The entries that a transfer inserts are those without a row.
filter_same :
    (p q : SemesterTransferEntry → Bool) (entries : List SemesterTransferEntry)
    → All (λ e. p e ≡ q e) entries
    → filter_by p entries ≡ filter_by q entries
filter_same p q [] h = refl
filter_same p q (e ∷ entries) h = rw (h.0, filter_same p q entries h.1) refl

ids_any :
    (entries : List SemesterTransferEntry)
    → All
        (λ (e : SemesterTransferEntry).
          any
            (λ id. id == e.volunteer_id)
            (map (λ (e : SemesterTransferEntry). e.volunteer_id) entries)
          ≡ true)
        entries
ids_any [] = tt
ids_any (e ∷ entries) = (
  ground arith,
  All-imp
      (λ (d : SemesterTransferEntry).
        any (λ id. id == d.volunteer_id)
          (map (λ (e : SemesterTransferEntry). e.volunteer_id) entries)
        ≡ true)
      _ entries (λ d h. ground (arith, h)) (ids_any entries),
)

pub values-filter :
    (g t : ℕ) (entries : List SemesterTransferEntry) (rows : List RoleAssignment)
    → transfer_values g t entries rows
      ≡ filter_by (λ (e : SemesterTransferEntry). not (has_row g t e.volunteer_id rows)) entries
unfolding transfer_values
values-filter g t entries rows = filter_same _ _ entries (
    All-imp _ _ entries
      (λ e h. ap not (
        existing_cases g t e.volunteer_id
          (map (λ (e : SemesterTransferEntry). e.volunteer_id) entries) rows h))
      (ids_any entries))
