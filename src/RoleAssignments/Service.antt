-- ===== src/RoleAssignments/Service.antt =====
-- The operations of RoleAssignmentsService in app/domain/role_assignments/service.py.
use kvarteret_personal.Prelude.{ℕ, Bool, not, List, [], ◌∷◌, none, some, ◌==◌}
use kvarteret_personal.Exec.{gets, modify, raise_if, or_raise, ◌>>=◌, ◌>>◌}
use kvarteret_personal.RoleAssignments.{
  Positions, PositionsExec, build_semester_code, volunteer_exists, course_exists,
  course_completion_exists, create_course_completion, fetch_course_completion_record,
  delete_course_completion, role_belongs_to_group, role_assignment_exists, create_role_assignment,
  fetch_role_assignment_record, update_role_assignment, delete_role_assignment, invalidate,
  volunteer_not_found, course_completion_not_found, role_assignment_not_found,
  invalid_course_completion, invalid_role_assignment, duplicate_course_completion,
  duplicate_role_assignment,
}

unfoldable pub add_course_completion : ℕ → ℕ → ℕ → ℕ → PositionsExec (Unit {0})
unfolding build_semester_code
add_course_completion volunteer_id course_id year term = do
  semester_code ← build_semester_code year term invalid_course_completion
  found ← gets (volunteer_exists volunteer_id)
  raise_if (not found) volunteer_not_found
  known ← gets (course_exists course_id)
  raise_if (not known) invalid_course_completion
  taken ← gets (course_completion_exists volunteer_id course_id semester_code)
  raise_if taken duplicate_course_completion
  modify (create_course_completion volunteer_id course_id semester_code)
  modify (invalidate volunteer_id)

unfoldable pub delete_course_completion_for_volunteer : ℕ → ℕ → PositionsExec (Unit {0})
delete_course_completion_for_volunteer volunteer_id completion_id = do
  found ← gets (fetch_course_completion_record completion_id)
  row ← or_raise found course_completion_not_found
  raise_if (not (row.volunteer_id == volunteer_id)) course_completion_not_found
  modify (delete_course_completion completion_id)
  modify (invalidate volunteer_id)

unfoldable pub add_role_assignment : ℕ → ℕ → ℕ → ℕ → ℕ → Bool → PositionsExec (Unit {0})
unfolding build_semester_code
add_role_assignment volunteer_id group_id role_id year term contract_signed = do
  semester_code ← build_semester_code year term invalid_role_assignment
  found ← gets (volunteer_exists volunteer_id)
  raise_if (not found) volunteer_not_found
  belongs ← gets (role_belongs_to_group group_id role_id)
  raise_if (not belongs) invalid_role_assignment
  taken ← gets (role_assignment_exists volunteer_id group_id role_id semester_code none)
  raise_if taken duplicate_role_assignment
  modify (create_role_assignment volunteer_id group_id role_id semester_code contract_signed)
  modify (invalidate volunteer_id)

unfoldable pub update_role_assignment_for_volunteer :
    ℕ → ℕ → ℕ → ℕ → ℕ → ℕ → Bool → PositionsExec (Unit {0})
unfolding build_semester_code
update_role_assignment_for_volunteer volunteer_id history_id group_id role_id year term
      contract_signed =
    do
      found ← gets (fetch_role_assignment_record history_id)
      row ← or_raise found role_assignment_not_found
      raise_if (not (row.volunteer_id == volunteer_id)) role_assignment_not_found
      semester_code ← build_semester_code year term invalid_role_assignment
      belongs ← gets (role_belongs_to_group group_id role_id)
      raise_if (not belongs) invalid_role_assignment
      taken ←
          gets
            (role_assignment_exists volunteer_id group_id role_id semester_code (some history_id))
      raise_if taken duplicate_role_assignment
      modify (update_role_assignment history_id group_id role_id semester_code contract_signed)
      modify (invalidate volunteer_id)

unfoldable pub delete_role_assignment_for_volunteer : ℕ → ℕ → PositionsExec (Unit {0})
delete_role_assignment_for_volunteer volunteer_id history_id = do
  found ← gets (fetch_role_assignment_record history_id)
  row ← or_raise found role_assignment_not_found
  raise_if (not (row.volunteer_id == volunteer_id)) role_assignment_not_found
  modify (delete_role_assignment history_id)
  modify (invalidate volunteer_id)

-- The operations on one volunteer; the arguments are theirs, in their order.
pub data PositionCall : Type 0 where
  add_completion : ℕ → ℕ → ℕ → PositionCall
  delete_completion : ℕ → PositionCall
  add_role : ℕ → ℕ → ℕ → ℕ → Bool → PositionCall
  update_role : ℕ → ℕ → ℕ → ℕ → ℕ → Bool → PositionCall
  delete_role : ℕ → PositionCall

unfoldable pub call_position : ℕ → PositionCall → PositionsExec (Unit {0})
unfolding add_course_completion delete_course_completion_for_volunteer add_role_assignment
    update_role_assignment_for_volunteer delete_role_assignment_for_volunteer
call_position v (add_completion course year term) = add_course_completion v course year term
call_position v (delete_completion id) = delete_course_completion_for_volunteer v id
call_position v (add_role group role year term signed) =
    add_role_assignment v group role year term signed
call_position v (update_role id group role year term signed) =
    update_role_assignment_for_volunteer v id group role year term signed
call_position v (delete_role id) = delete_role_assignment_for_volunteer v id

-- A sequence of operations, each on a volunteer, of which some may raise.
unfoldable pub call_positions : List (ℕ × PositionCall) → Positions → Positions
unfolding call_position
call_positions [] s = s
call_positions ((v, call) ∷ calls) s = call_positions calls (call_position v call s).1
