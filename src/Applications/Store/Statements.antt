-- ===== src/Applications/Store/Statements.antt =====
-- app/domain/volunteer_applications/repository.py: the statements that write, and the lookups among
-- the volunteers.
use kvarteret_personal.Prelude.{
  update_where, ℕ, suc, ◌+◌, Bool, false, not, ◌&&◌, ◌||◌, Option, none, some, List, [], ◌∷◌, ◌++◌,
  String, ◌==◌, any, filter_by, if◌then◌else◌, opt_eq, str_eq,
}
use kvarteret_personal.Text.{strip, lower, is_nonempty}
use kvarteret_personal.Volunteers.{VolunteerRecord}
use kvarteret_personal.Applications.StateMachine.{
  ApplicationState, new, volunteer, not_volunteer, same_state, DomainEventRecord,
}
use kvarteret_personal.Applications.Store.{Application, Db, ProspectSubmission, RoleRow}

-- The keyword arguments of `set_application_status`.
pub record StatusUpdate : Type 0 where
  pub status : ApplicationState
  pub start_trial : Bool
  pub volunteer_id : Option ℕ
  pub trial_assignment_id : Option ℕ
  pub owns_volunteer_profile : Option Bool

abbrev or_keep {ℓ} : {A : Type ℓ} → Option A → A → A
or_keep none old = old
or_keep (some new_value) _ = new_value

abbrev or_keep_id : Option ℕ → Option ℕ → Option ℕ
or_keep_id none old = old
or_keep_id (some id) _ = some id

-- The dictionary `values` applied to a row; a trial lasts 30 days.
abbrev pub apply_status : StatusUpdate → ℕ → Application → Application
apply_status u now a = record a {
  status = u.status;
  owns_volunteer_profile = or_keep u.owns_volunteer_profile a.owns_volunteer_profile;
  trial_assignment_id =
      if u.start_trial
      then u.trial_assignment_id
      else if same_state u.status not_volunteer
      then none
      else a.trial_assignment_id;
  promoted_volunteer_id = or_keep_id u.volunteer_id a.promoted_volunteer_id;
  trial_started_at = if u.start_trial then some now else a.trial_started_at;
  trial_ends_at = if u.start_trial then some (now + 2592000) else a.trial_ends_at;
}

abbrev pub has_status : ℕ → ApplicationState → Application → Bool
has_status registration_id expected a =
    a.registration_id == registration_id && same_state a.status expected

-- `set_application_status` with an expected status: the result says whether a row was changed.
unfoldable pub set_application_status :
    ℕ → StatusUpdate → ApplicationState → ℕ → List Application → Bool × List Application
set_application_status registration_id u expected now rows = (
  any (has_status registration_id expected) rows,
  update_where (has_status registration_id expected) (apply_status u now) rows,
)

abbrev pub promoted : ℕ → ℕ → ℕ → Application → Application
promoted volunteer_id accepted_group_id now a = record a {
  promoted_volunteer_id = some volunteer_id;
  promoted_at = some now;
  status = volunteer;
  initial_group_id = some accepted_group_id;
}

-- `mark_promoted`
unfoldable pub mark_promoted : ℕ → ℕ → ℕ → ℕ → List Application → List Application
mark_promoted registration_id volunteer_id accepted_group_id now =
    update_where (λ (a : Application). a.registration_id == registration_id)
      (promoted volunteer_id accepted_group_id now)

abbrev covers : ℕ → ProspectSubmission → Bool
covers registration_id p =
    opt_eq p.registration_id (some registration_id)
    || any (λ id. id == registration_id) p.registration_ids

-- `delete_volunteer_application`
unfoldable pub delete_application : ℕ → Db → Db
delete_application registration_id db = record db {
  prospects = filter_by (λ (p : ProspectSubmission). not (covers registration_id p)) db.prospects;
  applications =
      filter_by (λ (a : Application). not (a.registration_id == registration_id)) db.applications;
}

abbrev new_invitation : ℕ → String → String → Option ℕ → Option ℕ → Application
new_invitation id email token group_id role_id = record {
  registration_id = id;
  token = token;
  email = email;
  source = "invite";
  status = new;
  initial_group_id = group_id;
  initial_role_id = role_id;
  first_choice_group_id = none;
  trial_started_at = none;
  trial_ends_at = none;
  full_profile_submitted_at = none;
  promoted_volunteer_id = none;
  promoted_at = none;
  trial_assignment_id = none;
  owns_volunteer_profile = false;
  submission = none;
}

-- `create_volunteer_application_invitation`: the new row, and the database with it.
unfoldable pub create_invitation : String → String → Option ℕ → Option ℕ → Db → Application × Db
create_invitation email token group_id role_id db =
    let row = new_invitation db.next_registration_id email token group_id role_id in
    (
      row,
      record db {
        applications = db.applications ++ row ∷ [];
        next_registration_id = suc db.next_registration_id;
      },
    )

-- `append_domain_event`: the id of the new row.
unfoldable pub append_domain_event : DomainEventRecord → ℕ → Db → ℕ × Db
append_domain_event event subject_id db = (
  db.next_event_id,
  record db {
    events =
        db.events ++ record { id = db.next_event_id; subject_id = subject_id; event = event } ∷ [];
    next_event_id = suc db.next_event_id;
  },
)

-- `role_matches_group`
unfoldable pub role_matches_group : ℕ → ℕ → List RoleRow → Bool
role_matches_group role_id group_id =
    any (λ (r : RoleRow). r.id == role_id && r.group_id == group_id)

abbrev email_is : String → VolunteerRecord → Bool
email_is email r = str_eq (elim r.email [ none ↦ "" | some e ↦ lower e ]) email

-- What `find_volunteer_id_by_email` finds: nobody, one person, or several.
pub data EmailMatch : Type 0 where
  nobody several : EmailMatch
  one : ℕ → EmailMatch

abbrev to_match : List VolunteerRecord → EmailMatch
to_match [] = nobody
to_match (r ∷ []) = one r.id
to_match (_ ∷ _ ∷ _) = several

unfoldable pub match_email : String → List VolunteerRecord → EmailMatch
match_email email records = to_match (filter_by (email_is (lower (strip email))) records)

abbrev phone_is : String → Option String → Bool
phone_is phone none = false
phone_is phone (some p) = str_eq p phone

find_phone : String → List VolunteerRecord → Option ℕ
find_phone phone [] = none
find_phone phone (r ∷ records) =
    if phone_is phone r.phone then some r.id else find_phone phone records

-- `find_volunteer_ids_by_phone` for a normalized number, up to the first id, which is all that the
-- caller uses.
unfoldable pub match_phone : Option String → List VolunteerRecord → Option ℕ
unfolding find_phone
match_phone none records = none
match_phone (some phone) records = if is_nonempty phone then find_phone phone records else none
