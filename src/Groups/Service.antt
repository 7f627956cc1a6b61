-- ===== src/Groups/Service.antt =====
-- The writes of GroupsService in app/domain/groups/service.py.
use kvarteret_personal.Prelude.{
  ℕ, suc, Bool, true, false, not, ◌&&◌, Option, none, some, List, [], ◌∷◌, ◌++◌, String, ltb, ◌==◌,
  opt_eq, any, filter_by, find_first, update_where, if◌then◌else◌,
}
use kvarteret_personal.Text.{strip, lower, is_nonempty}
use kvarteret_personal.Exec.{pure, gets, modify, raise_if, or_raise, ◌>>=◌, ◌>>◌}
use kvarteret_personal.Volunteers.{RoleAssignment}
use kvarteret_personal.Groups.Points.{ℤ, validate_role_storage_values}
use kvarteret_personal.Groups.Slugs.{slugify}
use kvarteret_personal.Groups.Tables.{
  GroupRow, GroupRole, Membership, CourseRequirement, GroupsDb, Blocker, GroupValues, GroupsExec,
  no_slug, role_name_required, group_history_not_found, no_result_found, integrity_error, storage,
  group_delete_blocked, group_role_delete_blocked, has_children, has_history, has_members,
}

-- `text.strip() if text and text.strip() else None`
abbrev strip_or_none : Option String → Option String
strip_or_none none = none
strip_or_none (some text) = if is_nonempty (strip text) then some (strip text) else none

abbrev lower_or_none : Option String → Option String
lower_or_none none = none
lower_or_none (some text) = some (lower text)

abbrev insert_group : String → GroupValues → GroupsDb → GroupsDb
insert_group slug v s = record s {
  groups =
      s.groups
      ++ record {
        id = s.next_group_id;
        slug = slug;
        name = strip v.name;
        description = strip_or_none v.description;
        is_active = v.active;
        active_through_semester = v.active_until_semester;
        parent_group_id = v.parent_group_id;
        discount_tier = v.discount_step;
        recruitment_contact_email = none;
        recruitment_contact_volunteer_id = none;
      }
        ∷ [];
  next_group_id = suc s.next_group_id;
}

-- `recruitment_contact_email` is no argument of create_group.
unfoldable pub create_group : (String → String) → GroupValues → GroupsExec ℕ
unfolding slugify
create_group nfkd v = do
  raise_if (not (is_nonempty (slugify nfkd (strip v.name)))) no_slug
  id ← gets (λ s. s.next_group_id)
  modify (insert_group (slugify nfkd (strip v.name)) v)
  pure id

abbrev pub group_exists : ℕ → GroupsDb → Bool
group_exists id s = any (λ (g : GroupRow). g.id == id) s.groups

-- UPDATE groups … WHERE id, and whether a row came back.
abbrev update_group_row : ℕ → (GroupRow → GroupRow) → GroupsExec Bool
update_group_row group_id f = do
  found ← gets (group_exists group_id)
  modify (λ (s : GroupsDb). record s {
    groups = update_where (λ (g : GroupRow). g.id == group_id) f s.groups;
  })
  pure found

abbrev set_group_values : GroupValues → GroupRow → GroupRow
set_group_values v g = record g {
  recruitment_contact_email = lower_or_none (strip_or_none v.recruitment_contact_email);
  name = strip v.name;
  description = strip_or_none v.description;
  is_active = v.active;
  active_through_semester = v.active_until_semester;
  parent_group_id = v.parent_group_id;
  discount_tier = v.discount_step;
}

unfoldable pub update_group : ℕ → GroupValues → GroupsExec Bool
update_group group_id v = update_group_row group_id (set_group_values v)

unfoldable pub set_recruitment_contact_volunteer : ℕ → Option ℕ → GroupsExec Bool
set_recruitment_contact_volunteer group_id volunteer_id =
    update_group_row group_id (λ g. record g { recruitment_contact_volunteer_id = volunteer_id })

abbrev pub archive_row : ℕ → GroupRow → GroupRow
archive_row current_semester g = record g {
  is_active = false;
  active_through_semester =
      if ltb current_semester g.active_through_semester
      then current_semester
      else g.active_through_semester;
}

unfoldable pub archive_group : ℕ → ℕ → GroupsExec Bool
archive_group current_semester group_id = update_group_row group_id (archive_row current_semester)

-- `_get_group_delete_blockers`
abbrev pub has_child : ℕ → GroupsDb → Bool
has_child id s = any (λ (g : GroupRow). opt_eq g.parent_group_id (some id)) s.groups

abbrev pub has_assignment : ℕ → GroupsDb → Bool
has_assignment id s = any (λ (a : RoleAssignment). a.group_id == id) s.assignments

abbrev pub blocker_if : Bool → Blocker → List Blocker → List Blocker
blocker_if b blocker rest = if b then blocker ∷ rest else rest

unfoldable pub get_group_delete_blockers : ℕ → GroupsDb → List Blocker
get_group_delete_blockers id s =
    blocker_if (has_child id s) has_children (blocker_if (has_assignment id s) has_history [])

abbrev pub is_empty : List Blocker → Bool
is_empty [] = true
is_empty (_ ∷ _) = false

-- The four statements of `callback` in delete_group.
unfoldable pub delete_group_rows : ℕ → GroupsDb → GroupsDb
delete_group_rows id s = record s {
  memberships = filter_by (λ (m : Membership). not (m.group_id == id)) s.memberships;
  requirements = filter_by (λ (r : CourseRequirement). not (r.group_id == id)) s.requirements;
  roles = filter_by (λ (r : GroupRole). not (r.group_id == id)) s.roles;
  groups = filter_by (λ (g : GroupRow). not (g.id == id)) s.groups;
}

-- An assignment, of whichever group, holds a role of this group; its foreign key forbids the deletion.
abbrev pub roles_held : ℕ → GroupsDb → Bool
roles_held id s =
    any
      (λ (a : RoleAssignment). elim a.role_id [
        | none ↦ false
        | some r ↦ any (λ (x : GroupRole). x.id == r && x.group_id == id) s.roles
      ])
      s.assignments

unfoldable pub delete_group : ℕ → GroupsExec Bool
unfolding get_group_delete_blockers delete_group_rows
delete_group group_id = do
  blockers ← gets (get_group_delete_blockers group_id)
  raise_if (not (is_empty blockers)) (group_delete_blocked blockers)
  held ← gets (roles_held group_id)
  raise_if held integrity_error
  found ← gets (group_exists group_id)
  modify (delete_group_rows group_id)
  pure found

-- `_validate_role_storage_values`, and its ValueErrors
abbrev check_storage : ℕ → ℤ → Option ℕ → GroupsExec (Unit {0})
check_storage group_id points role_id =
    elim (validate_role_storage_values group_id points role_id) [
      | none ↦ pure tt
      | some e ↦ raise_if true (storage e)
    ]

unfoldable pub create_group_role : ℕ → String → ℤ → GroupsExec ℕ
unfolding validate_role_storage_values
create_group_role group_id role_name pingvin_points = do
  check_storage group_id pingvin_points none
  raise_if (not (is_nonempty (strip role_name))) role_name_required
  id ← gets (λ s. s.next_role_id)
  modify (λ (s : GroupsDb). record s {
    roles =
        s.roles
        ++ record {
          id = s.next_role_id;
          name = strip role_name;
          group_id = group_id;
          penguin_points = pingvin_points;
        }
          ∷ [];
    next_role_id = suc s.next_role_id;
  })
  pure id

-- The role of this id, in this group
abbrev pub is_role_of : ℕ → ℕ → GroupRole → Bool
is_role_of group_id role_id r = r.id == role_id && r.group_id == group_id

abbrev pub role_exists : ℕ → ℕ → GroupsDb → Bool
role_exists group_id role_id s = any (is_role_of group_id role_id) s.roles

unfoldable pub update_group_role : ℕ → ℕ → String → ℤ → GroupsExec Bool
unfolding validate_role_storage_values
update_group_role group_id role_id role_name pingvin_points = do
  check_storage group_id pingvin_points (some role_id)
  raise_if (not (is_nonempty (strip role_name))) role_name_required
  found ← gets (role_exists group_id role_id)
  modify (λ (s : GroupsDb). record s {
    roles =
        update_where (is_role_of group_id role_id)
          (λ (r : GroupRole). record r { name = strip role_name; penguin_points = pingvin_points })
          s.roles;
  })
  pure found

-- `_get_group_role_delete_blockers`
abbrev pub role_in_use : ℕ → ℕ → GroupsDb → Bool
role_in_use group_id role_id s =
    any (λ (a : RoleAssignment). opt_eq a.role_id (some role_id) && a.group_id == group_id)
      s.assignments

unfoldable pub get_group_role_delete_blockers : ℕ → ℕ → GroupsDb → List Blocker
get_group_role_delete_blockers group_id role_id s =
    if not (role_exists group_id role_id s)
    then []
    else blocker_if (role_in_use group_id role_id s) has_members []

unfoldable pub delete_role_rows : ℕ → ℕ → GroupsDb → GroupsDb
delete_role_rows group_id role_id s = record s {
  roles = filter_by (λ (r : GroupRole). not (is_role_of group_id role_id r)) s.roles;
}

-- An assignment, of whichever group, holds this role; its foreign key forbids the deletion.
abbrev pub role_held : ℕ → ℕ → GroupsDb → Bool
role_held group_id role_id s =
    role_exists group_id role_id s
    && any (λ (a : RoleAssignment). opt_eq a.role_id (some role_id)) s.assignments

unfoldable pub delete_group_role : ℕ → ℕ → GroupsExec Bool
unfolding get_group_role_delete_blockers delete_role_rows
delete_group_role group_id role_id = do
  blockers ← gets (get_group_role_delete_blockers group_id role_id)
  raise_if (not (is_empty blockers)) (group_role_delete_blocked blockers)
  held ← gets (role_held group_id role_id)
  raise_if held integrity_error
  found ← gets (role_exists group_id role_id)
  modify (delete_role_rows group_id role_id)
  pure found

-- `fetch_one_mapping` in app/db/repository.py raises where no row answers, before the test for None.
unfoldable pub delete_group_history_entry : ℕ → ℕ → GroupsExec (Unit {0})
delete_group_history_entry group_id history_id = do
  found ← gets (λ s. find_first (λ (a : RoleAssignment). a.id == history_id) s.assignments)
  row ← or_raise found no_result_found
  raise_if (not (row.group_id == group_id)) group_history_not_found
  modify (λ (s : GroupsDb). record s {
    assignments = filter_by (λ (a : RoleAssignment). not (a.id == history_id)) s.assignments;
  })
