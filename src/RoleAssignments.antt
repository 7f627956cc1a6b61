-- ===== src/RoleAssignments.antt =====
-- app/domain/role_assignments/service.py and repository.py: the roles that volunteers hold in a
-- group and a semester, and the courses they completed. Rows of role_assignments stand in `People`.
-- The database numbers new rows by a sequence; the volunteers' cache is the list `invalidated`.
pub mod Service
pub mod Outcomes
pub mod Integrity
pub mod Transfer
pub mod Owners
pub mod Ownership
pub mod Histories
use kvarteret_personal.Prelude.{
  ℕ, suc, ◌+◌, ◌*◌, Bool, true, not, ◌&&◌, ◌||◌, Option, none, some, List, [], ◌∷◌, ◌++◌, String,
  ltb, ◌==◌, opt_eq, is_some, any, filter_by, find_first, update_where, if◌then◌else◌,
}
use kvarteret_personal.Semester.{format_semester_code}
use kvarteret_personal.Exec.{Exec, ok, err, pure, gets, modify, raise_if, or_raise, ◌>>=◌, ◌>>◌}
use kvarteret_personal.Volunteers.{VolunteerRecord, RoleAssignment, People}

-- A row of assignment_roles.
pub record AssignmentRole : Type 0 where
  pub id : ℕ
  pub name : Option String
  pub group_id : ℕ

-- A row of course_completions.
pub record CourseCompletion : Type 0 where
  pub id : ℕ
  pub volunteer_id : ℕ
  pub course_id : ℕ
  pub completed_semester : ℕ

-- A row of courses.
pub record CourseRow : Type 0 where
  pub id : ℕ
  pub name : String
  pub description : Option String

-- A row of groups, as far as it is read here.
pub record GroupName : Type 0 where
  pub id : ℕ
  pub name : String

pub record Positions : Type 0 where
  pub people : People
  pub roles : List AssignmentRole
  pub groups : List GroupName
  pub courses : List CourseRow
  pub completions : List CourseCompletion
  pub next_completion_id : ℕ
  pub next_course_id : ℕ

-- The exceptions of models.py.
pub data RoleAssignmentsError : Type 0 where
  volunteer_not_found course_completion_not_found role_assignment_not_found : RoleAssignmentsError
  invalid_course_completion invalid_role_assignment : RoleAssignmentsError
  duplicate_course_completion duplicate_role_assignment : RoleAssignmentsError

abbrev pub PositionsExec : Type 0 → Type 0
PositionsExec A = Exec Positions RoleAssignmentsError A

-- `_build_semester_code`
unfoldable pub build_semester_code : ℕ → ℕ → RoleAssignmentsError → PositionsExec ℕ
unfolding format_semester_code
build_semester_code year term error_cls = do
  raise_if (ltb year 1900 || ltb 3000 year) error_cls
  raise_if (not (term == 1 || term == 2)) error_cls
  raise_if (not (is_some (format_semester_code (some (year * 10 + term))))) error_cls
  pure (year * 10 + term)

abbrev pub volunteer_exists : ℕ → Positions → Bool
volunteer_exists volunteer_id s =
    any (λ (v : VolunteerRecord). v.id == volunteer_id) s.people.records

abbrev pub course_exists : ℕ → Positions → Bool
course_exists course_id s = any (λ (c : CourseRow). c.id == course_id) s.courses

-- Without `exclude_completion_id`, which no caller passes.
abbrev pub course_completion_exists : ℕ → ℕ → ℕ → Positions → Bool
course_completion_exists volunteer_id course_id semester_code s =
    any
      (λ (c : CourseCompletion).
        c.volunteer_id == volunteer_id
        && c.course_id == course_id
        && c.completed_semester == semester_code)
      s.completions

abbrev pub create_course_completion : ℕ → ℕ → ℕ → Positions → Positions
create_course_completion volunteer_id course_id semester_code s = record s {
  completions =
      s.completions
      ++ record {
        id = s.next_completion_id;
        volunteer_id = volunteer_id;
        course_id = course_id;
        completed_semester = semester_code;
      }
        ∷ [];
  next_completion_id = suc s.next_completion_id;
}

abbrev pub fetch_course_completion_record : ℕ → Positions → Option CourseCompletion
fetch_course_completion_record completion_id s =
    find_first (λ (c : CourseCompletion). c.id == completion_id) s.completions

abbrev pub delete_course_completion : ℕ → Positions → Positions
delete_course_completion completion_id s = record s {
  completions = filter_by (λ (c : CourseCompletion). not (c.id == completion_id)) s.completions;
}

abbrev pub role_belongs_to_group : ℕ → ℕ → Positions → Bool
role_belongs_to_group group_id role_id s =
    any (λ (r : AssignmentRole). r.id == role_id && r.group_id == group_id) s.roles

-- The row holds the role in the group and the semester; a role that is NULL equals none.
abbrev pub holds_role : ℕ → ℕ → ℕ → ℕ → RoleAssignment → Bool
holds_role volunteer_id group_id role_id semester_code a =
    a.volunteer_id == volunteer_id
    && a.group_id == group_id
    && opt_eq a.role_id (some role_id)
    && a.semester == semester_code

-- `exclude_history_id` is optional.
abbrev pub role_assignment_exists : ℕ → ℕ → ℕ → ℕ → Option ℕ → Positions → Bool
role_assignment_exists volunteer_id group_id role_id semester_code exclude_history_id s =
    any
      (λ (a : RoleAssignment).
        holds_role volunteer_id group_id role_id semester_code a
        && not (opt_eq (some a.id) exclude_history_id))
      s.people.assignments

abbrev pub with_assignments : List RoleAssignment → Positions → Positions
with_assignments rows s = record s { people = record s.people { assignments = rows } }

abbrev pub create_role_assignment : ℕ → ℕ → ℕ → ℕ → Bool → Positions → Positions
create_role_assignment volunteer_id group_id role_id semester_code contract_signed s = record s {
  people = record s.people {
    assignments =
        s.people.assignments
        ++ record {
          id = s.people.next_assignment_id;
          volunteer_id = volunteer_id;
          group_id = group_id;
          role_id = some role_id;
          semester = semester_code;
          contract_signed = contract_signed;
        }
          ∷ [];
    next_assignment_id = suc s.people.next_assignment_id;
  };
}

abbrev pub fetch_role_assignment_record : ℕ → Positions → Option RoleAssignment
fetch_role_assignment_record history_id s =
    find_first (λ (a : RoleAssignment). a.id == history_id) s.people.assignments

abbrev pub update_role_assignment : ℕ → ℕ → ℕ → ℕ → Bool → Positions → Positions
update_role_assignment history_id group_id role_id semester_code contract_signed s =
    with_assignments
      (update_where (λ (a : RoleAssignment). a.id == history_id)
        (λ (a : RoleAssignment). record a {
          group_id = group_id;
          role_id = some role_id;
          semester = semester_code;
          contract_signed = contract_signed;
        })
        s.people.assignments)
      s

abbrev pub delete_role_assignment : ℕ → Positions → Positions
delete_role_assignment history_id s =
    with_assignments
      (filter_by (λ (a : RoleAssignment). not (a.id == history_id)) s.people.assignments) s

-- `_invalidate_volunteer_cache`
abbrev pub invalidate : ℕ → Positions → Positions
invalidate volunteer_id s = record s {
  people = record s.people { invalidated = volunteer_id ∷ s.people.invalidated };
}
