-- ===== src/RoleAssignments/Integrity.antt =====
-- The rows that app/domain/role_assignments/service.py keeps: no role and no course twice.
use kvarteret_personal.Prelude.{
  ℕ, suc, ◌<◌, Bool, true, false, not, ◌&&◌, none, some, ◌≡◌, refl, inl, inr, arith, ◌==◌, opt_eq,
  Bool-cases, Option-cases, if◌then◌else◌, All, All-filter_by, All-map, All-imp, All-zip, All-any,
  All-end, AllPairs, AllPairs-filter_by, AllPairs-end, AllPairs-map, subst, sym,
}
use kvarteret_personal.Volunteers.{RoleAssignment}
use kvarteret_personal.RoleAssignments.{
  CourseCompletion, Positions, holds_role, role_assignment_exists, course_completion_exists,
  create_role_assignment, update_role_assignment, delete_role_assignment, create_course_completion,
  delete_course_completion,
}

-- The two rows give one volunteer one role of one group in one semester, twice.
abbrev pub clash : RoleAssignment → RoleAssignment → Bool
clash a b = elim b.role_id [
  | none ↦ false
  | some role_id ↦ holds_role b.volunteer_id b.group_id role_id b.semester a
]

abbrev pub Apart : RoleAssignment → RoleAssignment → Type 0
Apart a b = (a.id == b.id ≡ false) × (clash a b ≡ false)

abbrev pub same_completion : CourseCompletion → CourseCompletion → Bool
same_completion a b =
    a.volunteer_id == b.volunteer_id
    && a.course_id == b.course_id
    && a.completed_semester == b.completed_semester

abbrev pub ApartCompletions : CourseCompletion → CourseCompletion → Type 0
ApartCompletions a b = (a.id == b.id ≡ false) × (same_completion a b ≡ false)

pub record IsValid (s : Positions) : Type 0 where
  pub fresh_assignments :
      All (λ (a : RoleAssignment). a.id < s.people.next_assignment_id) s.people.assignments
  pub assignments_apart : AllPairs Apart s.people.assignments
  pub fresh_completions : All (λ (c : CourseCompletion). c.id < s.next_completion_id) s.completions
  pub completions_apart : AllPairs ApartCompletions s.completions

clash_sym : (a b : RoleAssignment) → clash a b ≡ false → clash b a ≡ false
clash_sym a b h = elim (Option-cases a.role_id) [
  | inl p ↦ rw p refl
  | inr (r, p) ↦ elim (Option-cases b.role_id) [
    | inl q ↦ rw (p, q) (ground arith)
    | inr (t, q) ↦ rw p (ground (arith, p, q))
  ]
]

-- A new row, with the next id.
add_apart :
    (v g r sem : ℕ) (s : Positions) (a : RoleAssignment)
    → a.id < s.people.next_assignment_id
    → holds_role v g r sem a && not (opt_eq (some a.id) none) ≡ false
    → (a.id == s.people.next_assignment_id ≡ false) × (holds_role v g r sem a ≡ false)
add_apart v g r sem s a lt h = (ground arith, ground (arith, h))

pub add_role-IsValid :
    (v g r sem : ℕ) (signed : Bool) (s : Positions)
    → role_assignment_exists v g r sem none s ≡ false
    → IsValid s
    → IsValid (create_role_assignment v g r sem signed s)
add_role-IsValid v g r sem signed s free valid = record {
  fresh_assignments =
      All-end (λ (a : RoleAssignment). a.id < suc s.people.next_assignment_id) s.people.assignments
        _ (omega arith)
        (All-imp _ _ s.people.assignments (λ a lt. omega (arith, lt)) valid.fresh_assignments);
  assignments_apart =
      AllPairs-end Apart s.people.assignments _
        (All-zip _ _ _ s.people.assignments (add_apart v g r sem s) valid.fresh_assignments
          (All-any _ s.people.assignments free))
        valid.assignments_apart;
  fresh_completions = valid.fresh_completions;
  completions_apart = valid.completions_apart;
}

add_completion_apart :
    (v course sem : ℕ) (s : Positions) (c : CourseCompletion)
    → c.id < s.next_completion_id
    → c.volunteer_id == v && c.course_id == course && c.completed_semester == sem ≡ false
    → (c.id == s.next_completion_id ≡ false)
      × (c.volunteer_id == v && c.course_id == course && c.completed_semester == sem ≡ false)
add_completion_apart v course sem s c lt h = (ground arith, h)

pub add_completion-IsValid :
    (v course sem : ℕ) (s : Positions)
    → course_completion_exists v course sem s ≡ false
    → IsValid s
    → IsValid (create_course_completion v course sem s)
add_completion-IsValid v course sem s free valid = record {
  fresh_assignments = valid.fresh_assignments;
  assignments_apart = valid.assignments_apart;
  fresh_completions =
      All-end (λ (c : CourseCompletion). c.id < suc s.next_completion_id) s.completions _
        (omega arith)
        (All-imp _ _ s.completions (λ c lt. omega (arith, lt)) valid.fresh_completions);
  completions_apart =
      AllPairs-end ApartCompletions s.completions _
        (All-zip _ _ _ s.completions (add_completion_apart v course sem s) valid.fresh_completions
          (All-any _ s.completions free))
        valid.completions_apart;
}

pub delete_role-IsValid :
    (id : ℕ) (s : Positions) → IsValid s → IsValid (delete_role_assignment id s)
delete_role-IsValid id s valid = record {
  fresh_assignments = All-filter_by _ _ s.people.assignments valid.fresh_assignments;
  assignments_apart = AllPairs-filter_by Apart _ s.people.assignments valid.assignments_apart;
  fresh_completions = valid.fresh_completions;
  completions_apart = valid.completions_apart;
}

pub delete_completion-IsValid :
    (id : ℕ) (s : Positions) → IsValid s → IsValid (delete_course_completion id s)
delete_completion-IsValid id s valid = record {
  fresh_assignments = valid.fresh_assignments;
  assignments_apart = valid.assignments_apart;
  fresh_completions = All-filter_by _ _ s.completions valid.fresh_completions;
  completions_apart = AllPairs-filter_by ApartCompletions _ s.completions valid.completions_apart;
}

-- The row, if it has the id, is the volunteer's; if not, it does not hold the role.
abbrev pub Unclaimed : ℕ → ℕ → ℕ → ℕ → ℕ → RoleAssignment → Type 0
Unclaimed v id g r sem a =
    (a.id == id ≡ true → a.volunteer_id ≡ v) × (a.id == id ≡ false → holds_role v g r sem a ≡ false)

abbrev reassign : ℕ → ℕ → ℕ → ℕ → Bool → RoleAssignment → RoleAssignment
reassign id g r sem signed a =
    if a.id == id
    then record a { group_id = g; role_id = some r; semester = sem; contract_signed = signed }
    else a

reassign-Apart :
    (v id g r sem : ℕ) (signed : Bool) (a b : RoleAssignment)
    → Unclaimed v id g r sem a
    → Unclaimed v id g r sem b
    → Apart a b
    → Apart (reassign id g r sem signed a) (reassign id g r sem signed b)
reassign-Apart v id g r sem signed a b p q apart = elim (Bool-cases (a.id == id)) [
  | inl ida ↦ elim (Bool-cases (b.id == id)) [
    | inl idb ↦ absurd (ground (arith, ida, idb, apart.0))
    | inr nidb ↦
        let n : RoleAssignment = record a {
          group_id = g;
          role_id = some r;
          semester = sem;
          contract_signed = signed;
        } in
        rw (ida, nidb)
          (
            apart.0,
            clash_sym b n (subst (λ u. holds_role u g r sem b ≡ false) (sym (p.0 ida)) (q.1 nidb)),
          )
  ]
  | inr nida ↦ elim (Bool-cases (b.id == id)) [
    | inl idb ↦
        rw (nida, idb)
          (apart.0, subst (λ u. holds_role u g r sem a ≡ false) (sym (q.0 idb)) (p.1 nida))
    | inr nidb ↦ rw (nida, nidb) apart
  ]
]

reassign-id :
    (id g r sem n : ℕ) (signed : Bool) (a : RoleAssignment)
    → a.id < n
    → (reassign id g r sem signed a).id < n
reassign-id id g r sem n signed a h = ground arith

pub update_role-IsValid :
    (v id g r sem : ℕ) (signed : Bool) (s : Positions)
    → All (Unclaimed v id g r sem) s.people.assignments
    → IsValid s
    → IsValid (update_role_assignment id g r sem signed s)
update_role-IsValid v id g r sem signed s unclaimed valid = record {
  fresh_assignments =
      All-map (λ (a : RoleAssignment). a.id < s.people.next_assignment_id)
        (reassign id g r sem signed) s.people.assignments
        (λ a. reassign-id id g r sem s.people.next_assignment_id signed a) valid.fresh_assignments;
  assignments_apart =
      AllPairs-map Apart (Unclaimed v id g r sem) (reassign id g r sem signed) s.people.assignments
        (reassign-Apart v id g r sem signed) unclaimed valid.assignments_apart;
  fresh_completions = valid.fresh_completions;
  completions_apart = valid.completions_apart;
}
