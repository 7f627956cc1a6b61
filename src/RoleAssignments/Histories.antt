-- ===== src/RoleAssignments/Histories.antt =====
-- Sequences of operations of app/domain/role_assignments/service.py, and whose rows they change.
use kvarteret_personal.Prelude.{
  ℕ, Bool, true, false, not, ◌&&◌, some, List, [], ◌∷◌, ◌≡◌, inl, inr, arith, ◌==◌, ◌*◌, ◌+◌, ◌∙◌,
  opt_eq, Option-cases, All-zip, All-any,
}
use kvarteret_personal.Volunteers.{RoleAssignment}
use kvarteret_personal.RoleAssignments.{
  Positions, holds_role, role_assignment_exists, fetch_role_assignment_record, invalidate,
}
use kvarteret_personal.RoleAssignments.Service.{
  PositionCall, add_completion, delete_completion, add_role, update_role, delete_role,
  call_position, call_positions,
}
use kvarteret_personal.RoleAssignments.Outcomes.{accepts, written, completed, call_position-Decides}
use kvarteret_personal.RoleAssignments.Owners.{found_owner}
use kvarteret_personal.RoleAssignments.Integrity.{
  IsValid, Apart, Unclaimed, add_role-IsValid, add_completion-IsValid, delete_role-IsValid,
  delete_completion-IsValid, update_role-IsValid,
}

-- What the update has checked.
pub update_accepted :
    (v id g r y t : ℕ) (signed : Bool) (s : Positions)
    → accepts v (update_role id g r y t signed) s ≡ true
    → (row : RoleAssignment) × (fetch_role_assignment_record id s ≡ some row)
      × (row.volunteer_id ≡ v)
      × (role_assignment_exists v g r (y * 10 + t) (some id) s ≡ false)
unfolding accepts
update_accepted v id g r y t signed s h = elim (Option-cases (fetch_role_assignment_record id s)) [
  | inl missing ↦ absurd (ground (arith, missing, h))
  | inr (row, found) ↦ (row, found, ground (arith, found, h), ground (arith, found, h))
]

update_claims :
    (v w id g r sem : ℕ) (a : RoleAssignment)
    → w ≡ v
    → (a.id == id ≡ true → a.volunteer_id ≡ w)
    → holds_role v g r sem a && not (opt_eq (some a.id) (some id)) ≡ false
    → Unclaimed v id g r sem a
update_claims v w id g r sem a e own free = (λ p. own p ∙ e, λ q. ground (arith, q, free))

written-IsValid :
    (v : ℕ) (call : PositionCall) (s : Positions)
    → accepts v call s ≡ true
    → IsValid s
    → IsValid (written v call s)
unfolding accepts written
written-IsValid v (add_completion course y t) s h valid =
    add_completion-IsValid v course (y * 10 + t) s (ground (arith, h)) valid
written-IsValid v (delete_completion id) s h valid = delete_completion-IsValid id s valid
written-IsValid v (add_role g r y t signed) s h valid =
    add_role-IsValid v g r (y * 10 + t) signed s (ground (arith, h)) valid
written-IsValid v (update_role id g r y t signed) s h valid =
    let (row, found, own, free) = update_accepted v id g r y t signed s h in
    update_role-IsValid v id g r (y * 10 + t) signed s
      (All-zip _ _ _ s.people.assignments
        (λ a p q. update_claims v row.volunteer_id id g r (y * 10 + t) a own p q)
        (found_owner (λ (a : RoleAssignment). a.id) (λ a. a.volunteer_id) Apart (λ a b r. r.0) id
          s.people.assignments row valid.assignments_apart found)
        (All-any _ s.people.assignments free))
      valid
written-IsValid v (delete_role id) s h valid = delete_role-IsValid id s valid

invalidate-IsValid : (v : ℕ) (s : Positions) → IsValid s → IsValid (invalidate v s)
invalidate-IsValid v s valid = record {
  fresh_assignments = valid.fresh_assignments;
  assignments_apart = valid.assignments_apart;
  fresh_completions = valid.fresh_completions;
  completions_apart = valid.completions_apart;
}

call-IsValid :
    (v : ℕ) (call : PositionCall) (s : Positions) → IsValid s → IsValid (call_position v call s).1
unfolding completed
call-IsValid v call s valid = elim (call_position-Decides v call s) [
  | inl (accepted, r) ↦
      rw r (invalidate-IsValid v (written v call s) (written-IsValid v call s accepted valid))
  | inr (_, e, r) ↦ rw r valid
]

-- However the operations follow each other, for whichever volunteers and whether they return or
-- raise: if no volunteer holds a role of a group twice in one semester, and none completed a course
-- twice in one semester, this stays so.
pub call_positions-IsValid :
    (calls : List (ℕ × PositionCall)) (s : Positions) → IsValid s → IsValid (call_positions calls s)
unfolding call_positions
call_positions-IsValid [] s valid = valid
call_positions-IsValid ((v, call) ∷ calls) s valid =
    call_positions-IsValid calls (call_position v call s).1 (call-IsValid v call s valid)
