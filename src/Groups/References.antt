-- ===== src/Groups/References.antt =====
-- References between the rows of app/domain/groups/service.py, under its deletions. The column
-- parent_group_id has no foreign key: the test for subgroups is what keeps it right.
use kvarteret_personal.Prelude.{
  ℕ, ◌≡◌, refl, inl, inr, Bool, true, false, not, none, some, List, [], ◌∷◌, ◌==◌, opt_eq, any,
  filter_by, arith, All, All-zip, All-any, All-filter_by, filter-All, Bool-cases, Option-cases,
}
use kvarteret_personal.Volunteers.{RoleAssignment}
use kvarteret_personal.Groups.Tables.{GroupRow, GroupRole, Membership, CourseRequirement, GroupsDb}
use kvarteret_personal.Groups.Service.{
  group_exists, has_child, has_assignment, delete_group_rows, is_role_of, role_exists,
}

abbrev pub parent_exists : GroupsDb → GroupRow → Bool
parent_exists s g = elim g.parent_group_id [ none ↦ true | some p ↦ group_exists p s ]

-- The role of the assignment, if any, is one of its group.
abbrev pub role_fits : GroupsDb → RoleAssignment → Bool
role_fits s a = elim a.role_id [ none ↦ true | some r ↦ role_exists a.group_id r s ]

-- No row of the five tables refers to a group that is not there, and no assignment to a role that is
-- not one of its own group. Applications name groups without a foreign key and are not looked at.
pub record IsReferential (s : GroupsDb) : Type 0 where
  pub parents : All (λ g. parent_exists s g ≡ true) s.groups
  pub roles : All (λ (r : GroupRole). group_exists r.group_id s ≡ true) s.roles
  pub memberships : All (λ (m : Membership). group_exists m.group_id s ≡ true) s.memberships
  pub requirements :
      All (λ (r : CourseRequirement). group_exists r.group_id s ≡ true) s.requirements
  pub assignments :
      All
        (λ (a : RoleAssignment). (group_exists a.group_id s ≡ true) × (role_fits s a ≡ true))
        s.assignments

pub any-filter_by :
    {A : Type 0} (p q : A → Bool) (xs : List A)
    → All (λ x. p x ≡ true → q x ≡ true) xs
    → any p xs ≡ true
    → any p (filter_by q xs) ≡ true
any-filter_by p q [] keeps h = absurd cc
any-filter_by p q (x ∷ xs) keeps h = elim (Bool-cases (p x)) [
  | inl there ↦ rw (keeps.0 there, there) refl
  | inr absent ↦
      let rest = any-filter_by p q xs keeps.1 (ground (arith, absent, h)) in
      elim (Bool-cases (q x)) [ inl kept ↦ rw (kept, absent) rest | inr gone ↦ rw gone rest ]
]

pub All-always : {A : Type 0} (P : A → Type 0) (xs : List A) → ((x : A) → P x) → All P xs
All-always P [] f = tt
All-always P (x ∷ xs) f = (f x, All-always P xs f)

-- Another group is there after a deletion.
exists_after :
    (id g : ℕ) (s : GroupsDb)
    → g == id ≡ false
    → group_exists g s ≡ true
    → group_exists g (delete_group_rows id s) ≡ true
unfolding delete_group_rows
exists_after id g s ne h =
    any-filter_by (λ (x : GroupRow). x.id == g) (λ x. not (x.id == id)) s.groups
      (All-always _ s.groups (λ x e. ground (arith, ne, e))) h

role_after :
    (id g r : ℕ) (s : GroupsDb)
    → g == id ≡ false
    → role_exists g r s ≡ true
    → role_exists g r (delete_group_rows id s) ≡ true
unfolding delete_group_rows
role_after id g r s ne h =
    any-filter_by (is_role_of g r) (λ (x : GroupRole). not (x.group_id == id)) s.roles
      (All-always _ s.roles (λ x e. ground (arith, ne, e))) h

parent_after :
    (id : ℕ) (s : GroupsDb) (g : GroupRow)
    → parent_exists s g ≡ true
    → opt_eq g.parent_group_id (some id) ≡ false
    → parent_exists (delete_group_rows id s) g ≡ true
parent_after id s g h ne = elim (Option-cases g.parent_group_id) [
  | inl root ↦ rw root refl
  | inr (p, child) ↦
      rw child (exists_after id p s (ground (arith, child, ne)) (ground (arith, child, h)))
]

fits_after :
    (id : ℕ) (s : GroupsDb) (a : RoleAssignment)
    → a.group_id == id ≡ false
    → role_fits s a ≡ true
    → role_fits (delete_group_rows id s) a ≡ true
fits_after id s a ne h = elim (Option-cases a.role_id) [
  | inl free ↦ rw free refl
  | inr (r, held) ↦ rw held (role_after id a.group_id r s ne (ground (arith, held, h)))
]

pub delete_group_rows-IsReferential :
    (id : ℕ) (s : GroupsDb)
    → has_child id s ≡ false
    → has_assignment id s ≡ false
    → IsReferential s
    → IsReferential (delete_group_rows id s)
unfolding delete_group_rows
delete_group_rows-IsReferential id s childless unused valid = record {
  parents =
      All-filter_by _ _ s.groups
        (All-zip _ _ _ s.groups (parent_after id s) valid.parents (All-any _ s.groups childless));
  roles =
      All-zip _ _ _ (delete_group_rows id s).roles (λ r ne e. exists_after id r.group_id s ne e)
        (filter-All (λ (r : GroupRole). r.group_id == id) s.roles)
        (All-filter_by _ _ s.roles valid.roles);
  memberships =
      All-zip _ _ _ (delete_group_rows id s).memberships
        (λ r ne e. exists_after id r.group_id s ne e)
        (filter-All (λ (r : Membership). r.group_id == id) s.memberships)
        (All-filter_by _ _ s.memberships valid.memberships);
  requirements =
      All-zip _ _ _ (delete_group_rows id s).requirements
        (λ r ne e. exists_after id r.group_id s ne e)
        (filter-All (λ (r : CourseRequirement). r.group_id == id) s.requirements)
        (All-filter_by _ _ s.requirements valid.requirements);
  assignments =
      All-zip _ _ _ s.assignments
        (λ a e ne. (exists_after id a.group_id s ne e.0, fits_after id s a ne e.1))
        valid.assignments (All-any _ s.assignments unused);
}
