-- ===== src/Examples/Positions.antt =====
-- The theorems on role assignments and the transfer at one volunteer and two.
use kvarteret_personal.Prelude.{ℕ, ◌≡◌, refl, true, false, none, some, List, [], ◌∷◌, arith}
use kvarteret_personal.Volunteers.{RoleAssignment, VolunteerRecord}
use kvarteret_personal.RoleAssignments.{Positions}
use kvarteret_personal.RoleAssignments.Service.{
  PositionCall, update_role, delete_role, call_position, call_positions,
}
use kvarteret_personal.RoleAssignments.Outcomes.{Decides, accepts, completed, call_position-Decides}
use kvarteret_personal.RoleAssignments.Integrity.{IsValid}
use kvarteret_personal.RoleAssignments.Histories.{call_positions-IsValid}
use kvarteret_personal.RoleAssignments.Ownership.{
  roles_of_others, courses_of_others, call_position_others,
}
use kvarteret_personal.RoleAssignments.Transfer.{SemesterTransferEntry}

abbrev assignment : ℕ → ℕ → ℕ → RoleAssignment
assignment id volunteer_id semester = record {
  id = id;
  volunteer_id = volunteer_id;
  group_id = 3;
  role_id = some 7;
  semester = semester;
  contract_signed = true;
}

abbrev volunteer_record : ℕ → VolunteerRecord
volunteer_record id = record {
  id = id;
  first_name = some "Kari";
  last_name = "Nordmann";
  email = none;
  gender = "A";
  birth_date = none;
  street_address = none;
  postal_code = none;
  phone = none;
}

abbrev two_volunteers : Positions
two_volunteers = record {
  people = record {
    records = volunteer_record 11 ∷ volunteer_record 12 ∷ [];
    photos = [];
    assignments = assignment 1 11 20261 ∷ assignment 2 12 20261 ∷ [];
    next_volunteer_id = 13;
    next_assignment_id = 3;
    invalidated = [];
  };
  roles = record { id = 7; name = some "Barsjef"; group_id = 3 } ∷ [];
  groups = record { id = 3; name = "Bar" } ∷ [];
  courses = [];
  completions = [];
  next_completion_id = 1;
  next_course_id = 1;
}

two_volunteers-IsValid : IsValid two_volunteers
two_volunteers-IsValid = record {
  fresh_assignments = (omega arith, (omega arith, tt));
  assignments_apart = (((refl, refl), tt), (tt, tt));
  fresh_completions = tt;
  completions_apart = tt;
}

abbrev three_operations : List (ℕ × PositionCall)
three_operations =
    (11, update_role 1 3 7 2026 2 true) ∷ (12, delete_role 1) ∷ (12, delete_role 2) ∷ []

call_positions-IsValid_example : IsValid (call_positions three_operations two_volunteers)
call_positions-IsValid_example =
    call_positions-IsValid three_operations two_volunteers two_volunteers-IsValid

call_position_others_example :
    (roles_of_others 11 (call_position 11 (delete_role 1) two_volunteers).1
      ≡ roles_of_others 11 two_volunteers)
    × (courses_of_others 11 (call_position 11 (delete_role 1) two_volunteers).1
        ≡ courses_of_others 11 two_volunteers)
call_position_others_example =
    call_position_others 11 (delete_role 1) two_volunteers two_volunteers-IsValid

call_position-Decides_example :
    Decides
      (accepts 11 (delete_role 1) two_volunteers)
      (completed 11 (delete_role 1))
      two_volunteers
      (call_position 11 (delete_role 1) two_volunteers)
call_position-Decides_example = call_position-Decides 11 (delete_role 1) two_volunteers

abbrev three_entries : List SemesterTransferEntry
three_entries =
    record { volunteer_id = 11; role_id = some 7; contract_signed = false }
    ∷ record { volunteer_id = 12; role_id = none; contract_signed = true }
    ∷ []
