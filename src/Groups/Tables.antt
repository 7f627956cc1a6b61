-- ===== src/Groups/Tables.antt =====
-- The tables of app/domain/groups/tables.py and those that name a group, and the exceptions and
-- arguments of app/domain/groups/service.py.
use kvarteret_personal.Prelude.{ℕ, Bool, Option, List, String}
use kvarteret_personal.Exec.{Exec}
use kvarteret_personal.Volunteers.{RoleAssignment}
use kvarteret_personal.Groups.Points.{ℤ, StorageError}

-- A row of groups.
pub record GroupRow : Type 0 where
  pub id : ℕ
  pub slug : String
  pub name : String
  pub description : Option String
  pub is_active : Bool
  pub active_through_semester : ℕ
  pub parent_group_id : Option ℕ
  pub discount_tier : Option ℕ
  pub recruitment_contact_email : Option String
  pub recruitment_contact_volunteer_id : Option ℕ

-- A row of assignment_roles.
pub record GroupRole : Type 0 where
  pub id : ℕ
  pub name : String
  pub group_id : ℕ
  pub penguin_points : ℤ

-- A row of group_admin_memberships, and one of group_course_requirements.
pub record Membership : Type 0 where
  pub auth_user_id : String
  pub group_id : ℕ

pub record CourseRequirement : Type 0 where
  pub group_id : ℕ
  pub course_id : ℕ

pub record GroupsDb : Type 0 where
  pub groups : List GroupRow
  pub roles : List GroupRole
  pub memberships : List Membership
  pub requirements : List CourseRequirement
  pub assignments : List RoleAssignment
  pub next_group_id : ℕ
  pub next_role_id : ℕ

pub data Blocker : Type 0 where
  has_children has_history has_members : Blocker

-- The exceptions; the ValueErrors are told apart by what they say, and no_result_found
-- and integrity_error are those of the database layer.
pub data GroupsError : Type 0 where
  no_slug role_name_required group_history_not_found no_result_found integrity_error : GroupsError
  storage : StorageError → GroupsError
  group_delete_blocked group_role_delete_blocked : List Blocker → GroupsError

abbrev pub GroupsExec : Type 0 → Type 0
GroupsExec A = Exec GroupsDb GroupsError A

-- The keyword arguments of create_group and update_group.
pub record GroupValues : Type 0 where
  pub name : String
  pub description : Option String
  pub active : Bool
  pub active_until_semester : ℕ
  pub parent_group_id : Option ℕ
  pub discount_step : Option ℕ
  pub recruitment_contact_email : Option String
