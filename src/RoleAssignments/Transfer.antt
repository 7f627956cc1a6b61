-- ===== src/RoleAssignments/Transfer.antt =====
-- apply_transfer of app/domain/role_assignments/semester_transfer.py: the roles of a group for
-- another semester.
pub mod Again
use kvarteret_personal.Prelude.{
  ℕ, suc, zero, Bool, true, none, some, not, ◌&&◌, Option, List, [], ◌∷◌, ◌++◌, ◌==◌, any,
  filter_by, map, length, if◌then◌else◌,
}
use kvarteret_personal.Exec.{Exec, ok, pure, gets, modify, raise_if, ◌>>=◌, ◌>>◌}
use kvarteret_personal.Volunteers.{RoleAssignment}
use kvarteret_personal.RoleAssignments.{GroupName, AssignmentRole, Positions, volunteer_exists}

pub record SemesterTransferEntry : Type 0 where
  pub volunteer_id : ℕ
  pub role_id : Option ℕ
  pub contract_signed : Bool

-- SemesterTransferGroupNotFoundError, and the IntegrityError of the INSERT
pub data TransferError : Type 0 where
  group_not_found integrity_error : TransferError

abbrev pub TransferExec : Type 0 → Type 0
TransferExec A = Exec Positions TransferError A

abbrev pub group_exists : ℕ → Positions → Bool
group_exists group_id s = any (λ (g : GroupName). g.id == group_id) s.groups

-- The statement `existing_stmt`, of rows of the table.
unfoldable pub existing_volunteers : ℕ → ℕ → List ℕ → List RoleAssignment → List ℕ
existing_volunteers group_id target_semester volunteer_ids rows =
    map (λ (a : RoleAssignment). a.volunteer_id)
      (filter_by
        (λ (a : RoleAssignment).
          a.group_id == group_id
          && a.semester == target_semester
          && any (λ id. id == a.volunteer_id) volunteer_ids)
        rows)

-- The entries whose volunteers have no row yet.
unfoldable pub transfer_values :
    ℕ → ℕ → List SemesterTransferEntry → List RoleAssignment → List SemesterTransferEntry
unfolding existing_volunteers
transfer_values group_id target_semester entries rows =
    filter_by
      (λ (e : SemesterTransferEntry). not (
        any (λ id. id == e.volunteer_id)
          (existing_volunteers group_id target_semester
            (map (λ (e : SemesterTransferEntry). e.volunteer_id) entries) rows)))
      entries

abbrev pub to_assignment : ℕ → ℕ → ℕ → SemesterTransferEntry → RoleAssignment
to_assignment id group_id target_semester e = record {
  id = id;
  volunteer_id = e.volunteer_id;
  group_id = group_id;
  role_id = e.role_id;
  semester = target_semester;
  contract_signed = e.contract_signed;
}

-- The rows of one INSERT, with the next ids.
abbrev pub to_assignments : ℕ → ℕ → ℕ → List SemesterTransferEntry → List RoleAssignment
to_assignments id group_id target_semester [] = []
to_assignments id group_id target_semester (e ∷ entries) =
    to_assignment id group_id target_semester e
    ∷ to_assignments (suc id) group_id target_semester entries

abbrev advance : ℕ → List SemesterTransferEntry → ℕ
advance id [] = id
advance id (e ∷ entries) = advance (suc id) entries

unfoldable pub insert_values : ℕ → ℕ → List SemesterTransferEntry → Positions → Positions
insert_values group_id target_semester values s = record s {
  people = record s.people {
    assignments =
        s.people.assignments
        ++ to_assignments s.people.next_assignment_id group_id target_semester values;
    next_assignment_id = advance s.people.next_assignment_id values;
  };
}

-- The foreign keys of role_assignments: the volunteer and the role, if any, are there. The role may be
-- one of another group.
abbrev pub has_references : Positions → SemesterTransferEntry → Bool
has_references s e =
    volunteer_exists e.volunteer_id s
    && elim e.role_id [ none ↦ true | some r ↦ any (λ (x : AssignmentRole). x.id == r) s.roles ]

abbrev pub is_dangling : Positions → SemesterTransferEntry → Bool
is_dangling s e = not (has_references s e)

-- `if not values: return 0`, and the INSERT, which fails as a whole
unfoldable pub insert_or_zero : ℕ → ℕ → List SemesterTransferEntry → TransferExec ℕ
unfolding insert_values
insert_or_zero group_id target_semester [] = pure 0
insert_or_zero group_id target_semester (e ∷ values) = do
  dangling ← gets (λ s. any (is_dangling s) (e ∷ values))
  raise_if dangling integrity_error
  modify (insert_values group_id target_semester (e ∷ values))
  pure (length (e ∷ values))

-- The two tests for an empty list are one: `volunteer_ids` is as long as `entries`.
abbrev apply_entries : ℕ → ℕ → List SemesterTransferEntry → TransferExec ℕ
apply_entries group_id target_semester [] = pure 0
apply_entries group_id target_semester (e ∷ entries) = do
  values ← gets (λ s. transfer_values group_id target_semester (e ∷ entries) s.people.assignments)
  insert_or_zero group_id target_semester values

unfoldable pub apply_transfer : ℕ → ℕ → List SemesterTransferEntry → TransferExec ℕ
unfolding transfer_values insert_or_zero
apply_transfer group_id target_semester entries = do
  found ← gets (group_exists group_id)
  raise_if (not found) group_not_found
  apply_entries group_id target_semester entries
