-- ===== src/Groups/Deletions.antt =====
-- The deletions of app/domain/groups/service.py, whether they return or raise.
use kvarteret_personal.Prelude.{
  ℕ, ◌≡◌, refl, inl, inr, Bool, true, false, not, ◌&&◌, some, [], ◌==◌, opt_eq, find_first,
  if◌then◌else◌, arith, All, All-imp, All-zip, All-any, All-filter_by, Bool-cases, Option-cases,
}
use kvarteret_personal.Exec.{pure, gets, modify, raise_if, or_raise, ◌>>=◌}
use kvarteret_personal.Volunteers.{RoleAssignment}
use kvarteret_personal.Groups.Tables.{GroupRole, GroupsDb, has_children, has_history, has_members}
use kvarteret_personal.Groups.Service.{
  has_child, has_assignment, roles_held, role_held, get_group_delete_blockers, is_empty, blocker_if,
  delete_group, is_role_of, role_exists, role_in_use, get_group_role_delete_blockers,
  delete_role_rows, delete_group_role, delete_group_history_entry,
}
use kvarteret_personal.Groups.References.{
  IsReferential, role_fits, any-filter_by, All-always, delete_group_rows-IsReferential,
}

-- A role of another id, or of another group, is there after a deletion.
keeps_role :
    (group role : ℕ) (a : RoleAssignment) (r : ℕ) (x : GroupRole)
    → a.role_id ≡ some r
    → opt_eq a.role_id (some role) && a.group_id == group ≡ false
    → is_role_of a.group_id r x ≡ true
    → not (is_role_of group role x) ≡ true
keeps_role group role a r x held free is = ground (arith, held, free, is)

fits_kept :
    (group role : ℕ) (s : GroupsDb) (a : RoleAssignment)
    → opt_eq a.role_id (some role) && a.group_id == group ≡ false
    → role_fits s a ≡ true
    → role_fits (delete_role_rows group role s) a ≡ true
unfolding delete_role_rows
fits_kept group role s a free h = elim (Option-cases a.role_id) [
  | inl none_held ↦ rw none_held refl
  | inr (r, held) ↦ rw held (
      any-filter_by (is_role_of a.group_id r) (λ x. not (is_role_of group role x)) s.roles
        (All-always _ s.roles (λ x. keeps_role group role a r x held free))
        (ground (arith, held, h)))
]

-- A role that is not there is deleted without a trace.
fits_absent :
    (group role : ℕ) (s : GroupsDb) (a : RoleAssignment)
    → role_exists group role s ≡ false
    → role_fits s a ≡ true
    → role_fits (delete_role_rows group role s) a ≡ true
unfolding delete_role_rows
fits_absent group role s a absent h = elim (Option-cases a.role_id) [
  | inl none_held ↦ rw none_held refl
  | inr (r, held) ↦ rw held (
      any-filter_by (is_role_of a.group_id r) (λ x. not (is_role_of group role x)) s.roles
        (All-imp _ _ s.roles (λ x e is. ground (arith, e)) (All-any _ s.roles absent))
        (ground (arith, held, h)))
]

delete_role_rows-IsReferential :
    (group role : ℕ) (s : GroupsDb)
    → All (λ (a : RoleAssignment). role_fits (delete_role_rows group role s) a ≡ true) s.assignments
    → IsReferential s
    → IsReferential (delete_role_rows group role s)
unfolding delete_role_rows
delete_role_rows-IsReferential group role s fits valid = record {
  parents = valid.parents;
  roles = All-filter_by _ _ s.roles valid.roles;
  memberships = valid.memberships;
  requirements = valid.requirements;
  assignments = All-zip _ _ _ s.assignments (λ a e f. (e.0, f)) valid.assignments fits;
}

-- The deletions that a group's page offers.
pub data Deletion : Type 0 where
  of_group : ℕ → Deletion
  of_role of_history_entry : ℕ → ℕ → Deletion

-- The database behind a deletion.
unfoldable pub delete_from : Deletion → GroupsDb → GroupsDb
unfolding delete_group delete_group_role delete_group_history_entry
delete_from (of_group id) s = (delete_group id s).1
delete_from (of_role group role) s = (delete_group_role group role s).1
delete_from (of_history_entry group history) s = (delete_group_history_entry group history s).1

blockers_empty :
    (b c : Bool)
    → is_empty (blocker_if b has_children (blocker_if c has_history [])) ≡ true
    → (b ≡ false) × (c ≡ false)
blockers_empty false false h = (refl, refl)
blockers_empty false true h = absurd cc
blockers_empty true c h = absurd cc

delete_group-IsReferential :
    (id : ℕ) (s : GroupsDb) → IsReferential s → IsReferential (delete_group id s).1
unfolding delete_group get_group_delete_blockers ◌>>=◌ gets raise_if modify pure
delete_group-IsReferential id s valid =
    elim (Bool-cases (is_empty (get_group_delete_blockers id s))) [
      | inl free ↦
          let (childless, unused) = blockers_empty (has_child id s) (has_assignment id s) free in
          elim (Bool-cases (roles_held id s)) [
            | inl held ↦ rw (free, held) valid
            | inr loose ↦
                rw (free, loose) (delete_group_rows-IsReferential id s childless unused valid)
          ]
      | inr blocked ↦ rw blocked valid
    ]

role_blockers_empty :
    (b c : Bool)
    → is_empty (if not b then [] else blocker_if c has_members []) ≡ true
    → (b ≡ true)
    → c ≡ false
role_blockers_empty true false h e = refl
role_blockers_empty true true h e = absurd cc
role_blockers_empty false c h e = absurd cc

-- What the test for blockers has shown of the assignments.
roles_fit :
    (group role : ℕ) (s : GroupsDb)
    → is_empty (get_group_role_delete_blockers group role s) ≡ true
    → IsReferential s
    → All (λ (a : RoleAssignment). role_fits (delete_role_rows group role s) a ≡ true) s.assignments
unfolding get_group_role_delete_blockers
roles_fit group role s free valid = elim (Bool-cases (role_exists group role s)) [
  | inl there ↦
      let unused =
        role_blockers_empty (role_exists group role s) (role_in_use group role s) free there in
      All-zip _ _ _ s.assignments (λ a e f. fits_kept group role s a f e.1) valid.assignments
        (All-any _ s.assignments unused)
  | inr absent ↦
      All-imp _ _ s.assignments (λ a e. fits_absent group role s a absent e.1) valid.assignments
]

delete_group_role-IsReferential :
    (group role : ℕ) (s : GroupsDb)
    → IsReferential s
    → IsReferential (delete_group_role group role s).1
unfolding delete_group_role get_group_role_delete_blockers ◌>>=◌ gets raise_if modify pure
delete_group_role-IsReferential group role s valid =
    elim (Bool-cases (is_empty (get_group_role_delete_blockers group role s))) [
      | inr blocked ↦ rw blocked valid
      | inl free ↦ elim (Bool-cases (role_held group role s)) [
        | inl held ↦ rw (free, held) valid
        | inr loose ↦
            rw (free, loose)
              (delete_role_rows-IsReferential group role s (roles_fit group role s free valid)
                valid)
      ]
    ]

delete_history-IsReferential :
    (group history : ℕ) (s : GroupsDb)
    → IsReferential s
    → IsReferential (delete_group_history_entry group history s).1
unfolding delete_group_history_entry ◌>>=◌ gets or_raise raise_if modify
delete_history-IsReferential group history s valid =
    elim (Option-cases (find_first (λ (a : RoleAssignment). a.id == history) s.assignments)) [
      | inl missing ↦ rw missing valid
      | inr (row, found) ↦ elim (Bool-cases (row.group_id == group)) [
        | inl own ↦
            rw (found, own)
              (record {
                parents = valid.parents;
                roles = valid.roles;
                memberships = valid.memberships;
                requirements = valid.requirements;
                assignments = All-filter_by _ _ s.assignments valid.assignments;
              })
        | inr other ↦ rw (found, other) valid
      ]
    ]

-- A deletion of a group, of a role or of an entry of the history keeps the references of five tables,
-- whether it returns or raises: if every parent group, and every group of a role, of a membership, of
-- a course requirement and of an assignment, is there, and the role of an assignment, if it has one,
-- is there as a role of the assignment's own group, then this is so behind it too.
pub delete_from-IsReferential :
    (d : Deletion) (s : GroupsDb) → IsReferential s → IsReferential (delete_from d s)
unfolding delete_from
delete_from-IsReferential (of_group id) s valid = delete_group-IsReferential id s valid
delete_from-IsReferential (of_role group role) s valid =
    delete_group_role-IsReferential group role s valid
delete_from-IsReferential (of_history_entry group history) s valid =
    delete_history-IsReferential group history s valid
