-- ===== src/RoleAssignments/Ownership.antt =====
-- Whose rows the operations of app/domain/role_assignments/service.py change.
use kvarteret_personal.Prelude.{
  ℕ, true, ◌≡◌, refl, inl, inr, arith, ◌==◌, ◌∙◌, All, All-imp, Option, some, none, List,
}
use kvarteret_personal.Volunteers.{RoleAssignment}
use kvarteret_personal.RoleAssignments.{
  CourseCompletion, Positions, fetch_role_assignment_record, fetch_course_completion_record,
}
use kvarteret_personal.RoleAssignments.Service.{
  PositionCall, add_completion, delete_completion, add_role, update_role, delete_role,
  call_position,
}
use kvarteret_personal.RoleAssignments.Outcomes.{
  holds_of, accepts, written, completed, call_position-Decides,
}
use kvarteret_personal.RoleAssignments.Owners.{
  found_owner, others, others-end, others-delete, others-update,
}
use kvarteret_personal.RoleAssignments.Integrity.{IsValid, Apart, ApartCompletions}
use kvarteret_personal.RoleAssignments.Histories.{update_accepted}

abbrev pub roles_of_others : ℕ → Positions → List RoleAssignment
roles_of_others v s =
    others (λ (a : RoleAssignment). a.id) (λ a. a.volunteer_id) v s.people.assignments

abbrev pub courses_of_others : ℕ → Positions → List CourseCompletion
courses_of_others v s =
    others (λ (c : CourseCompletion). c.id) (λ c. c.volunteer_id) v s.completions

role_owners :
    (v id : ℕ) (row : RoleAssignment) (s : Positions)
    → IsValid s
    → fetch_role_assignment_record id s ≡ some row
    → row.volunteer_id ≡ v
    → All (λ (a : RoleAssignment). a.id == id ≡ true → a.volunteer_id ≡ v) s.people.assignments
role_owners v id row s valid found own =
    All-imp _ _ s.people.assignments (λ a p q. p q ∙ own)
      (found_owner (λ (a : RoleAssignment). a.id) (λ a. a.volunteer_id) Apart (λ a b r. r.0) id
        s.people.assignments row valid.assignments_apart found)

course_owners :
    (v id : ℕ) (row : CourseCompletion) (s : Positions)
    → IsValid s
    → fetch_course_completion_record id s ≡ some row
    → row.volunteer_id ≡ v
    → All (λ (c : CourseCompletion). c.id == id ≡ true → c.volunteer_id ≡ v) s.completions
course_owners v id row s valid found own =
    All-imp _ _ s.completions (λ a p q. p q ∙ own)
      (found_owner (λ (c : CourseCompletion). c.id) (λ c. c.volunteer_id) ApartCompletions
        (λ a b r. r.0) id s.completions row valid.completions_apart found)

-- The row that a deletion has fetched is the volunteer's.
owned :
    {A : Type 0} (owner : A → ℕ) (v : ℕ) (o : Option A)
    → holds_of (λ a. owner a == v) o ≡ true
    → (row : A) × (o ≡ some row) × (owner row ≡ v)
owned owner v none h = absurd cc
owned owner v (some a) h = (a, refl, ground (arith, h))

written_others :
    (v : ℕ) (call : PositionCall) (s : Positions)
    → IsValid s
    → accepts v call s ≡ true
    → (roles_of_others v (written v call s) ≡ roles_of_others v s)
      × (courses_of_others v (written v call s) ≡ courses_of_others v s)
unfolding written accepts
written_others v (add_completion course y t) s valid h =
    (refl, others-end (λ (c : CourseCompletion). c.id) (λ c. c.volunteer_id) v s.completions _ refl)
written_others v (delete_completion id) s valid h =
    let (row, found, own) =
      owned (λ (c : CourseCompletion). c.volunteer_id) v (fetch_course_completion_record id s) h in
    (
      refl,
      others-delete (λ (c : CourseCompletion). c.id) (λ c. c.volunteer_id) v id s.completions
          (course_owners v id row s valid found own),
    )
written_others v (add_role g r y t signed) s valid h = (
  others-end (λ (a : RoleAssignment). a.id) (λ a. a.volunteer_id) v s.people.assignments _ refl,
  refl,
)
written_others v (update_role id g r y t signed) s valid h =
    let (row, found, own, free) = update_accepted v id g r y t signed s h in
    (
      others-update (λ (a : RoleAssignment). a.id) (λ a. a.volunteer_id) v id _ s.people.assignments
          (λ a. refl) (role_owners v id row s valid found own),
      refl,
    )
written_others v (delete_role id) s valid h =
    let (row, found, own) =
      owned (λ (a : RoleAssignment). a.volunteer_id) v (fetch_role_assignment_record id s) h in
    (
      others-delete (λ (a : RoleAssignment). a.id) (λ a. a.volunteer_id) v id s.people.assignments
          (role_owners v id row s valid found own),
      refl,
    )

-- An operation on a volunteer, whether it returns or raises, leaves the roles and the courses of all
-- other volunteers as they were, if ids are unique and no row is there twice.
pub call_position_others :
    (v : ℕ) (call : PositionCall) (s : Positions)
    → IsValid s
    → (roles_of_others v (call_position v call s).1 ≡ roles_of_others v s)
      × (courses_of_others v (call_position v call s).1 ≡ courses_of_others v s)
unfolding completed
call_position_others v call s valid = elim (call_position-Decides v call s) [
  | inl (accepted, r) ↦ rw r (written_others v call s valid accepted)
  | inr (_, e, r) ↦ rw r (refl, refl)
]
