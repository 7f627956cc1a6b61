-- ===== src/Applications/Store.antt =====
-- app/domain/volunteer_applications: the rows of tables.py, the detail of models.py, and the
-- lookups of repository.py that the lifecycle uses; those that write are in Statements. An application is a row of
-- volunteer_application_invites with its row of volunteer_application_submissions; names of groups
-- and roles, friends and the status history are left out of the detail. Times are seconds.
pub mod Statements
use kvarteret_personal.Prelude.{
  find_first, update_where, ℕ, suc, ◌+◌, Bool, true, false, not, ◌&&◌, ◌||◌, Option, none, some,
  List, [], ◌∷◌, ◌++◌, String, ◌==◌, any, filter_by, if◌then◌else◌, is_some, opt_eq, min, str_eq,
}
use kvarteret_personal.Text.{strip, lower, isdigit, is_nonempty, len}
use kvarteret_personal.Volunteers.{People, VolunteerRecord}
use kvarteret_personal.EmailOutbox.{Outbox}
use kvarteret_personal.Applications.StateMachine.{
  ApplicationState, new, volunteer, not_volunteer, same_state, DomainEventRecord,
}

-- A row of volunteer_application_submissions.
pub record Submission : Type 0 where
  pub id : ℕ
  pub first_name : Option String
  pub last_name : Option String
  pub phone : Option String
  pub birth_date : Option ℕ
  pub gender : Option String
  pub street_address : Option String
  pub postal_code : Option String
  pub photo_sha1 : Option String
  pub photo_filetype : Option String

-- `VolunteerApplicationDetail`
pub record Application : Type 0 where
  pub registration_id : ℕ
  pub token : String
  pub email : String
  pub source : String
  pub status : ApplicationState
  pub initial_group_id : Option ℕ
  pub initial_role_id : Option ℕ
  pub first_choice_group_id : Option ℕ
  pub trial_started_at : Option ℕ
  pub trial_ends_at : Option ℕ
  pub full_profile_submitted_at : Option ℕ
  pub promoted_volunteer_id : Option ℕ
  pub promoted_at : Option ℕ
  pub trial_assignment_id : Option ℕ
  pub owns_volunteer_profile : Bool
  pub submission : Option Submission

-- A row of domain_events.
pub record EventRow : Type 0 where
  pub id : ℕ
  pub subject_id : ℕ
  pub event : DomainEventRecord

-- A row of volunteer_prospect_submissions: the registrations that one request made.
pub record ProspectSubmission : Type 0 where
  pub registration_id : Option ℕ
  pub registration_ids : List ℕ

-- A row of assignment_roles.
pub record RoleRow : Type 0 where
  pub id : ℕ
  pub group_id : ℕ

pub record Db : Type 0 where
  pub applications : List Application
  pub next_registration_id : ℕ
  pub events : List EventRow
  pub next_event_id : ℕ
  pub prospects : List ProspectSubmission
  pub roles : List RoleRow
  pub people : People
  pub outbox : Outbox

-- bool(s and s.strip())
abbrev filled : Option String → Bool
filled none = false
filled (some s) = is_nonempty s && is_nonempty (strip s)

-- bool(code and len(code) == 4 and code.isdigit()), where isdigit knows the ASCII digits only: a
-- code in digits of another script, which Python accepts, makes a profile incomplete here
abbrev is_postal_code : Option String → Bool
is_postal_code none = false
is_postal_code (some s) = is_nonempty s && len s == 4 && isdigit s

complete_submission : Option Submission → Bool
complete_submission none = false
complete_submission (some b) =
    filled b.last_name
    && filled b.phone
    && is_some b.birth_date
    && filled b.street_address
    && is_postal_code b.postal_code
    && is_some b.photo_sha1
    && is_some b.photo_filetype

-- `VolunteerApplicationDetail.profile_complete`
unfoldable pub profile_complete : Application → Bool
unfolding complete_submission
profile_complete d = is_some d.full_profile_submitted_at && complete_submission d.submission

-- `get_volunteer_application_detail`
unfoldable pub get_detail : ℕ → List Application → Option Application
get_detail registration_id = find_first (λ (a : Application). a.registration_id == registration_id)

-- The status is neither VOLUNTEER nor NOT_VOLUNTEER.
abbrev pub is_active : ApplicationState → Bool
is_active volunteer = false
is_active not_volunteer = false
is_active _ = true

-- func.coalesce
abbrev pub coalesce : Option ℕ → Option ℕ → Option ℕ
coalesce none y = y
coalesce (some x) y = some x

abbrev pub not_excluded : Option ℕ → ℕ → Bool
not_excluded none id = true
not_excluded (some excluded) id = not (id == excluded)

-- The WHERE clause of `find_active_registration_for_target`; the argument is lowered and stripped.
abbrev pub matches_target : String → Option ℕ → Option ℕ → Option ℕ → Application → Bool
matches_target email group_id role_id exclude_id a =
    str_eq (lower a.email) email
    && opt_eq (coalesce a.initial_group_id a.first_choice_group_id) group_id
    && opt_eq a.initial_role_id role_id
    && is_active a.status
    && not_excluded exclude_id a.registration_id

abbrev lowest : ℕ → Option ℕ → Option ℕ
lowest n none = some n
lowest n (some m) = some (min n m)

-- ORDER BY id LIMIT 1
abbrev lowest_id : (Application → Bool) → List Application → Option ℕ
lowest_id p [] = none
lowest_id p (a ∷ rows) =
    let rest = lowest_id p rows in if p a then lowest a.registration_id rest else rest

unfoldable pub find_active_registration_for_target :
    String → Option ℕ → Option ℕ → Option ℕ → List Application → Option ℕ
find_active_registration_for_target email group_id role_id exclude_id =
    lowest_id (matches_target (lower (strip email)) group_id role_id exclude_id)
