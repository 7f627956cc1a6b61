-- ===== src/Examples/GroupPages.antt =====
-- The theorems on groups at a group with a role, and on slugs at one name.
use kvarteret_personal.Prelude.{ℕ, ◌≡◌, refl, ◌↔◌, true, Option, none, some, [], ◌∷◌}
use kvarteret_personal.Exec.{err, ◌>>=◌, gets, raise_if, modify, pure}
use kvarteret_personal.Groups.Points.{
  pos, negsuc, of_word, to_word, is_int_id, is_int_id_or_none, validate_role_storage_values,
  validate_iff,
}
use kvarteret_personal.Groups.Slugs.{slugify}
use kvarteret_personal.Groups.Slugs.Shape.{is_slug, slugify-is_slug}
use kvarteret_personal.Groups.Tables.{GroupRow, GroupsDb, has_children, group_delete_blocked}
use kvarteret_personal.Groups.Service.{get_group_delete_blockers, delete_group_rows, delete_group}
use kvarteret_personal.Groups.References.{IsReferential}
use kvarteret_personal.Groups.Deletions.{of_role, delete_from, delete_from-IsReferential}

slugify-is_slug_example : is_slug (slugify (λ s. s) "Blå Søndag & Co.") ≡ true
slugify-is_slug_example = slugify-is_slug (λ s. s) "Blå Søndag & Co."

validate_iff_example : (validate_role_storage_values 3 (negsuc 4) (some 7) ≡ none) ↔ (
    (of_word (to_word (negsuc 4)) ≡ negsuc 4)
    × (is_int_id 3 ≡ true)
    × (is_int_id_or_none (some 7) ≡ true))
validate_iff_example = validate_iff 3 (negsuc 4) (some 7)

abbrev group_row : ℕ → Option ℕ → GroupRow
group_row id parent = record {
  id = id;
  slug = "bar";
  name = "Bar";
  description = none;
  is_active = true;
  active_through_semester = 20262;
  parent_group_id = parent;
  discount_tier = none;
  recruitment_contact_email = none;
  recruitment_contact_volunteer_id = none;
}

abbrev bar_groups : GroupsDb
bar_groups = record {
  groups = group_row 3 none ∷ group_row 4 (some 3) ∷ [];
  roles =
      record { id = 7; name = "Barsjef"; group_id = 4; penguin_points = pos 2 }
      ∷ record { id = 8; name = "Vakt"; group_id = 4; penguin_points = pos 1 }
      ∷ [];
  memberships = record { auth_user_id = "u5"; group_id = 4 } ∷ [];
  requirements = [];
  assignments =
      record {
        id = 1;
        volunteer_id = 11;
        group_id = 4;
        role_id = some 7;
        semester = 20261;
        contract_signed = true;
      }
      ∷ [];
  next_group_id = 5;
  next_role_id = 9;
}

bar_groups-IsReferential : IsReferential bar_groups
bar_groups-IsReferential = record {
  parents = (refl, (refl, tt));
  roles = (refl, (refl, tt));
  memberships = (refl, tt);
  requirements = tt;
  assignments = ((refl, refl), tt);
}

-- The group has a subgroup.
bar_blocked :
    delete_group 3 bar_groups ≡ (err (group_delete_blocked (has_children ∷ [])), bar_groups)
unfolding delete_group get_group_delete_blockers delete_group_rows ◌>>=◌ gets raise_if modify pure
bar_blocked = refl

delete_from-IsReferential_example : IsReferential (delete_from (of_role 4 8) bar_groups)
delete_from-IsReferential_example =
    delete_from-IsReferential (of_role 4 8) bar_groups bar_groups-IsReferential
