-- ===== src/Volunteers.antt =====
-- The volunteers' tables and the onboarding of an applicant: create_from_application,
-- add_application_assignment and remove_trial_assignment of app/domain/volunteers/service.py and
-- app/domain/volunteers/repository.py. The database numbers new rows by a sequence. The
-- invalidated cache of the service is the list `invalidated`.
use kvarteret_personal.Prelude.{
  ℕ, suc, Bool, not, ◌&&◌, Option, none, some, List, [], ◌∷◌, ◌++◌, String, map, ◌==◌, any,
  filter_by, if◌then◌else◌,
}
use kvarteret_personal.Text.{is_nonempty}
use kvarteret_personal.Exec.{Exec, ok, err, pure, modify, ◌>>=◌, ◌>>◌}

-- A row of volunteer_records.
pub record VolunteerRecord : Type 0 where
  pub id : ℕ
  pub first_name : Option String
  pub last_name : String
  pub email : Option String
  pub gender : String
  pub birth_date : Option ℕ
  pub street_address : Option String
  pub postal_code : Option String
  pub phone : Option String

-- A row of volunteer_photos.
pub record VolunteerPhoto : Type 0 where
  pub volunteer_id : ℕ
  pub sha1 : String
  pub filetype : String

-- A row of role_assignments.
pub record RoleAssignment : Type 0 where
  pub id : ℕ
  pub volunteer_id : ℕ
  pub group_id : ℕ
  pub role_id : Option ℕ
  pub semester : ℕ
  pub contract_signed : Bool

pub record People : Type 0 where
  pub records : List VolunteerRecord
  pub photos : List VolunteerPhoto
  pub assignments : List RoleAssignment
  pub next_volunteer_id : ℕ
  pub next_assignment_id : ℕ
  pub invalidated : List ℕ

-- The keyword arguments of create_from_application.
pub record Onboarding : Type 0 where
  pub first_name : Option String
  pub last_name : String
  pub email : Option String
  pub gender : String
  pub birth_date : Option ℕ
  pub street_address : Option String
  pub postal_code : Option String
  pub phone : Option String
  pub photo_sha1 : Option String
  pub photo_filetype : Option String

-- The ValueError of add_application_assignment.
pub data OnboardingError : Type 0 where
  assignment_lost : OnboardingError

abbrev pub PeopleExec : Type 0 → Type 0
PeopleExec A = Exec People OnboardingError A

abbrev pub to_record : ℕ → Onboarding → VolunteerRecord
to_record id o = record {
  id = id;
  first_name = o.first_name;
  last_name = o.last_name;
  email = o.email;
  gender = o.gender;
  birth_date = o.birth_date;
  street_address = o.street_address;
  postal_code = o.postal_code;
  phone = o.phone;
}

-- The insert, or the update, of the volunteer record; the result is the volunteer's id.
unfoldable pub save_record : Onboarding → Option ℕ → PeopleExec ℕ
save_record o none p = (
  ok p.next_volunteer_id,
  record p {
    records = p.records ++ to_record p.next_volunteer_id o ∷ [];
    next_volunteer_id = suc p.next_volunteer_id;
  },
)
save_record o (some id) p =
    (ok id, record p { records = map (λ r. if r.id == id then to_record id o else r) p.records })

-- The two texts of a photo, if neither is missing nor empty.
abbrev photo_parts : Option String → Option String → Option (String × String)
photo_parts (some sha1) (some filetype) =
    if is_nonempty sha1 && is_nonempty filetype then some (sha1, filetype) else none
photo_parts _ _ = none

abbrev replace_photo : ℕ → String → String → List VolunteerPhoto → List VolunteerPhoto
replace_photo id sha1 filetype photos =
    if any (λ (ph : VolunteerPhoto). ph.volunteer_id == id) photos
    then map
        (λ (ph : VolunteerPhoto).
          if ph.volunteer_id == id then record ph { sha1 = sha1; filetype = filetype } else ph)
        photos
    else photos ++ record { volunteer_id = id; sha1 = sha1; filetype = filetype } ∷ []

unfoldable pub save_photo : ℕ → Onboarding → PeopleExec (Unit {0})
save_photo id o p = elim (photo_parts o.photo_sha1 o.photo_filetype) [
  | none ↦ (ok tt, p)
  | some (sha1, filetype) ↦ (ok tt, record p { photos = replace_photo id sha1 filetype p.photos })
]

-- The assignment with this id, if it belongs to the volunteer.
abbrev pub owns_assignment : List RoleAssignment → ℕ → ℕ → Bool
owns_assignment rows volunteer_id assignment_id =
    any (λ (a : RoleAssignment). a.id == assignment_id && a.volunteer_id == volunteer_id) rows

abbrev insert_assignment : ℕ → ℕ → Option ℕ → ℕ → Bool → PeopleExec (ℕ × Option ℕ)
insert_assignment volunteer_id group_id role_id semester contract_signed p = (
  ok (volunteer_id, some p.next_assignment_id),
  record p {
    assignments =
        p.assignments
        ++ record {
          id = p.next_assignment_id;
          volunteer_id = volunteer_id;
          group_id = group_id;
          role_id = role_id;
          semester = semester;
          contract_signed = contract_signed;
        }
          ∷ [];
    next_assignment_id = suc p.next_assignment_id;
  },
)

abbrev update_assignment : ℕ → ℕ → ℕ → Option ℕ → ℕ → Bool → PeopleExec (ℕ × Option ℕ)
update_assignment volunteer_id assignment_id group_id role_id semester contract_signed p = (
  ok (volunteer_id, some assignment_id),
  record p {
    assignments =
        map
          (λ (a : RoleAssignment).
            if a.id == assignment_id
            then record a {
              group_id = group_id;
              role_id = role_id;
              semester = semester;
              contract_signed = contract_signed;
            }
            else a)
          p.assignments;
  },
)

-- `add_application_assignment` of the repository.
unfoldable pub place : ℕ → Option ℕ → Option ℕ → ℕ → Bool → Option ℕ → PeopleExec (ℕ × Option ℕ)
place volunteer_id none role_id semester signed assignment_id p =
    (ok (volunteer_id, assignment_id), p)
place volunteer_id (some group_id) role_id semester signed none p =
    insert_assignment volunteer_id group_id role_id semester signed p
place volunteer_id (some group_id) role_id semester signed (some assignment_id) p =
    if owns_assignment p.assignments volunteer_id assignment_id
    then update_assignment volunteer_id assignment_id group_id role_id semester signed p
    else (err assignment_lost, p)

abbrev pub invalidate_volunteer_cache : ℕ → PeopleExec (Unit {0})
invalidate_volunteer_cache id =
    modify (λ (p : People). record p { invalidated = id ∷ p.invalidated })

-- `add_application_assignment` of the service.
unfoldable pub add_application_assignment :
    ℕ → Option ℕ → Option ℕ → ℕ → Bool → Option ℕ → PeopleExec (ℕ × Option ℕ)
unfolding place
add_application_assignment volunteer_id group_id role_id semester signed assignment_id = do
  result ← place volunteer_id group_id role_id semester signed assignment_id
  invalidate_volunteer_cache volunteer_id
  pure result

abbrev invalidate_if : Option ℕ → PeopleExec (Unit {0})
invalidate_if none = pure tt
invalidate_if (some id) = invalidate_volunteer_cache id

-- `create_from_application`, of the service over that of the repository.
unfoldable pub create_from_application :
    Onboarding → Option ℕ → Option ℕ → ℕ → Bool → Option ℕ → Option ℕ → PeopleExec (ℕ × Option ℕ)
unfolding save_record save_photo place
create_from_application o group_id role_id semester signed volunteer_id assignment_id = do
  id ← save_record o volunteer_id
  save_photo id o
  result ← place id group_id role_id semester signed assignment_id
  invalidate_if volunteer_id
  pure result

-- `remove_trial_assignment`: only a row whose contract is not signed goes.
unfoldable pub remove_trial_assignment : ℕ → ℕ → PeopleExec (Unit {0})
remove_trial_assignment volunteer_id assignment_id = do
  modify (λ (p : People). record p {
    assignments =
        filter_by
          (λ (a : RoleAssignment).
            not (a.id == assignment_id && a.volunteer_id == volunteer_id && not a.contract_signed))
          p.assignments;
  })
  invalidate_volunteer_cache volunteer_id
