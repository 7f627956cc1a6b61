-- ===== src/Applications/Service.antt =====
-- app/domain/volunteer_applications/service.py: the change of status as the workflow asks for it. Waiting for
-- the lock of `lock_registration_emails` lets other requests commit: what they do to the database
-- in the meantime is `others`, which may be anything.
pub mod Records
pub mod Steps
pub mod Outcomes
pub mod Approve
pub mod Delete
pub mod Status
use kvarteret_personal.Prelude.{
  ℕ, suc, ◌+◌, ◌*◌, Bool, true, false, not, ◌&&◌, ◌||◌, Option, none, some, List, [], ◌∷◌, String,
  leb, ltb, ◌==◌, any, if◌then◌else◌, is_some, opt_eq, or_else,
}
use kvarteret_personal.Text.{strip, lower, is_nonempty}
use kvarteret_personal.Semester.{get_current_semester_code}
use kvarteret_personal.Phone.{PhoneNumbers, normalize_phone_number, default_phone_region}
use kvarteret_personal.Exec.{
  Exec, Result, ok, err, pure, raise, raise_if, or_raise, gets, modify, ◌>>=◌, ◌>>◌,
}
use kvarteret_personal.EmailOutbox.Service.{AttemptRun}
use kvarteret_personal.Volunteers.{
  People, PeopleExec, Onboarding, OnboardingError, add_application_assignment,
  create_from_application, remove_trial_assignment,
}
use kvarteret_personal.Applications.StateMachine.{
  ApplicationState, new, contacted, trial, volunteer, not_volunteer, same_state,
}
use kvarteret_personal.Applications.Store.{
  Db, Application, Submission, get_detail, profile_complete, find_active_registration_for_target,
}
use kvarteret_personal.Applications.Store.Statements.{
  StatusUpdate, EmailMatch, nobody, several, one, set_application_status, mark_promoted,
  delete_application, create_invitation, role_matches_group, match_email, match_phone,
}

-- What VolunteerApplicationConflictError says.
pub data Reason : Type 0 where
  changed_concurrently only_contacted only_trial incomplete_profile no_group group_not_chosen :
      Reason
  no_role role_mismatch bad_year bad_semester year_and_semester phone_taken several_people : Reason
  email_required group_and_role never_promoted already_submitted transition_refused : Reason

-- The exceptions. `illegal_transition` is that of the state machine, `key_error`, `value_error`
-- and `runtime_error` are Python's.
pub data Error : Type 0 where
  not_found illegal_transition key_error value_error runtime_error : Error
  conflict : Reason → Error
  active_registration_exists : ℕ → Error

-- What a run of the dispatcher meets: the setting, the rows that other workers have locked, the new
-- lease owners, and how each attempt goes.
pub record Mailer : Type 0 where
  pub email_dispatch_enabled : Bool
  pub locked : ℕ → Bool
  pub owner : ℕ → ℕ
  pub attempt : ℕ → AttemptRun

-- The clock, the library of phone numbers, the other requests and the mail.
pub record Env : Type 1 where
  pub phone_numbers : PhoneNumbers
  pub year : ℕ
  pub month : ℕ
  pub now : ℕ
  pub others : Db → Db
  pub mailer : Mailer

abbrev pub DbExec : Type 0 → Type 0
DbExec A = Exec Db Error A

module _ {A : Type 0} where
  abbrev lift_result : Result OnboardingError A → Result Error A
  lift_result (ok a) = ok a
  lift_result (err _) = err value_error

  -- A call of the volunteers module.
  unfoldable pub in_people : PeopleExec A → DbExec A
  in_people m db = let (r, people) = m db.people in (lift_result r, record db { people = people })

-- The detail, or the error of a registration that is not there.
unfoldable pub require_detail : ℕ → DbExec Application
require_detail registration_id = do
  rows ← gets (λ (db : Db). db.applications)
  or_raise (get_detail registration_id rows) not_found

-- The fields of a submission as the detail shows them.
module _ {ℓ} {A : Type ℓ} where
  abbrev of_submission : (Submission → Option A) → Application → Option A
  of_submission field d = elim d.submission [ none ↦ none | some b ↦ field b ]

-- `a or b` of an optional text and a text
abbrev or_default : Option String → String → String
or_default none b = b
or_default (some a) b = if is_nonempty a then a else b

abbrev phone_of : Env → Application → Option String
phone_of env d =
    normalize_phone_number env.phone_numbers (of_submission (λ (b : Submission). b.phone) d)
      default_phone_region

abbrev to_onboarding : Env → Application → String → Onboarding
to_onboarding env d last_name_default = record {
  first_name = of_submission (λ (b : Submission). b.first_name) d;
  last_name = or_default (of_submission (λ (b : Submission). b.last_name) d) last_name_default;
  email = some d.email;
  gender = or_default (of_submission (λ (b : Submission). b.gender) d) "A";
  birth_date = of_submission (λ (b : Submission). b.birth_date) d;
  street_address = of_submission (λ (b : Submission). b.street_address) d;
  postal_code = of_submission (λ (b : Submission). b.postal_code) d;
  phone = phone_of env d;
  photo_sha1 = of_submission (λ (b : Submission). b.photo_sha1) d;
  photo_filetype = of_submission (λ (b : Submission). b.photo_filetype) d;
}

-- `_reject_phone_duplicate`
unfoldable pub reject_phone_duplicate : Env → Application → DbExec (Unit {0})
reject_phone_duplicate env d = do
  db ← gets (λ (db : Db). db)
  raise_if (is_some (match_phone (phone_of env d) db.people.records)) (conflict phone_taken)

abbrev pub from_match : EmailMatch → DbExec (Option ℕ)
from_match nobody = pure none
from_match (one id) = pure (some id)
from_match several = raise (conflict several_people)

-- `known or await repository.find_volunteer_id_by_email(email)`
unfoldable pub known_or_by_email : Option ℕ → String → DbExec (Option ℕ)
known_or_by_email known email = do
  db ← gets (λ (db : Db). db)
  if is_some (or_else known none)
      then pure known
      else from_match (match_email email db.people.records)

abbrev pub semester_now : Env → ℕ
semester_now env = get_current_semester_code env.year env.month

-- The volunteer, the assignment and the ownership of the profile after a trial was started.
abbrev pub Placement : Type 0
Placement = Option ℕ × Option ℕ × Bool

abbrev target_group : Application → Option ℕ
target_group d = or_else d.initial_group_id d.first_choice_group_id

place_known : Env → Application → ℕ → DbExec Placement
place_known env d volunteer_id = do
  (id, assignment) ← in_people (
      add_application_assignment volunteer_id (target_group d) d.initial_role_id (semester_now env)
        false none)
  pure (some id, assignment, d.owns_volunteer_profile)

place_new : Env → Application → DbExec Placement
place_new env d = do
  reject_phone_duplicate env d
  (id, assignment) ← in_people (
      create_from_application (to_onboarding env d d.email) (target_group d) d.initial_role_id
        (semester_now env) false none none)
  pure (some id, assignment, true)

place_applicant : Env → Application → Option ℕ → DbExec Placement
unfolding place_known place_new
place_applicant env d none = place_new env d
place_applicant env d (some volunteer_id) = place_known env d volunteer_id

place_by_email : Env → Application → DbExec Placement
unfolding place_applicant
place_by_email env d = do
  known ← known_or_by_email d.promoted_volunteer_id d.email
  place_applicant env d known

-- `if start_trial and trial_assignment_id is None: …`
unfoldable pub place_trial : Env → Application → Bool → DbExec Placement
unfolding place_by_email
place_trial env d start_trial =
    if start_trial && not (is_some d.trial_assignment_id)
    then place_by_email env d
    else pure (d.promoted_volunteer_id, d.trial_assignment_id, d.owns_volunteer_profile)

unfoldable pub raise_duplicate : Option ℕ → DbExec (Unit {0})
raise_duplicate none = pure tt
raise_duplicate (some id) = raise (active_registration_exists id)

-- A trial, or a reopened application, must not have an active twin for the same target.
unfoldable pub check_duplicate : Application → ApplicationState → Bool → DbExec (Unit {0})
unfolding raise_duplicate
check_duplicate d status start_trial = do
  rows ← gets (λ (db : Db). db.applications)
  if start_trial || (same_state status contacted && same_state d.status not_volunteer)
      then raise_duplicate (
          find_active_registration_for_target d.email (target_group d) d.initial_role_id
            (some d.registration_id) rows)
      else pure tt

drop_assignment : Option ℕ → Option ℕ → DbExec (Unit {0})
drop_assignment (some assignment_id) (some volunteer_id) =
    in_people (remove_trial_assignment volunteer_id assignment_id)
drop_assignment _ _ = pure tt

-- A rejection removes the assignment of the trial.
unfoldable pub drop_trial_assignment : Application → ApplicationState → DbExec (Unit {0})
unfolding drop_assignment
drop_trial_assignment d status =
    if same_state status not_volunteer
    then drop_assignment d.trial_assignment_id d.promoted_volunteer_id
    else pure tt

abbrev pub status_update : ApplicationState → Bool → Placement → StatusUpdate
status_update status start_trial (volunteer_id, assignment_id, owns) = record {
  status = status;
  start_trial = start_trial;
  volunteer_id = if start_trial then volunteer_id else none;
  trial_assignment_id = if start_trial then assignment_id else none;
  owns_volunteer_profile = if start_trial then some owns else none;
}

-- The compare-and-set of the status.
unfoldable pub write_status : Env → ℕ → StatusUpdate → ApplicationState → DbExec (Unit {0})
write_status env registration_id u expected db =
    let (updated, rows) =
      set_application_status registration_id u expected env.now db.applications in
    if not updated
    then (err (conflict changed_concurrently), db)
    else (ok tt, record db { applications = rows })

-- The detail read again behind the lock.
unfoldable pub lock_detail : Env → ℕ → DbExec Application
unfolding require_detail
lock_detail env registration_id = do
  require_detail registration_id
  modify env.others
  require_detail registration_id

unfoldable pub set_application_status_record :
    Env → ℕ → ApplicationState → ApplicationState → Bool → DbExec Application
set_application_status_record env registration_id status expected_status start_trial = do
  detail ← lock_detail env registration_id
  raise_if (not (same_state detail.status expected_status)) (conflict changed_concurrently)
  raise_if (start_trial && not (same_state detail.status contacted)) (conflict only_contacted)
  check_duplicate detail status start_trial
  drop_trial_assignment detail status
  placement ← place_trial env detail start_trial
  write_status env registration_id (status_update status start_trial placement) expected_status
  require_detail registration_id
