-- ===== src/Applications/Service/Records.antt =====
-- app/domain/volunteer_applications/service.py: approval, deletion and invitation of an application.
use kvarteret_personal.Prelude.{
  ℕ, ◌+◌, ◌*◌, Bool, false, not, ◌&&◌, ◌||◌, Option, none, some, String, leb, ◌==◌, if◌then◌else◌,
  is_some, opt_eq, or_else,
}
use kvarteret_personal.Text.{strip, lower, is_nonempty}
use kvarteret_personal.Exec.{ok, pure, raise_if, or_raise, gets, modify, ◌>>=◌, ◌>>◌}
use kvarteret_personal.Volunteers.{add_application_assignment, create_from_application}
use kvarteret_personal.Applications.StateMachine.{new, trial, same_state}
use kvarteret_personal.Applications.Store.{
  Db, Application, profile_complete, find_active_registration_for_target,
}
use kvarteret_personal.Applications.Store.Statements.{
  mark_promoted, delete_application, create_invitation, role_matches_group,
}
use kvarteret_personal.Applications.Service.{
  DbExec, Env, already_submitted, bad_semester, bad_year, changed_concurrently, conflict,
  email_required, group_and_role, group_not_chosen, in_people, incomplete_profile,
  known_or_by_email, lock_detail, no_group, no_role, only_trial, reject_phone_duplicate,
  require_detail, role_mismatch, semester_now, to_onboarding, year_and_semester,
}

-- The arguments of `approve_application_record`.
pub record Approval : Type 0 where
  pub accepted_group_id : Option ℕ
  pub accepted_role_id : Option ℕ
  pub assignment_year : Option ℕ
  pub assignment_term : Option ℕ
  pub contract_signed : Bool

abbrev pub is_allowed_group : Application → ℕ → Bool
is_allowed_group d group_id =
    not (is_some d.initial_group_id || is_some d.first_choice_group_id)
    || opt_eq d.initial_group_id (some group_id)
    || opt_eq d.first_choice_group_id (some group_id)

abbrev bad_year_value : Option ℕ → Bool
bad_year_value none = false
bad_year_value (some y) = not (leb 1900 y && leb y 3000)

abbrev bad_term_value : Option ℕ → Bool
bad_term_value none = false
bad_term_value (some t) = not (t == 1 || t == 2)

abbrev approval_semester : Env → Option ℕ → Option ℕ → ℕ
approval_semester env (some y) (some t) = y * 10 + t
approval_semester env _ _ = semester_now env

-- The checks of the semester, and the semester of the assignment.
unfoldable pub resolve_semester : Env → Approval → DbExec ℕ
resolve_semester env a = do
  raise_if (bad_year_value a.assignment_year) (conflict bad_year)
  raise_if (bad_term_value a.assignment_term) (conflict bad_semester)
  raise_if
      ((is_some a.assignment_year && not (is_some a.assignment_term))
        || (not (is_some a.assignment_year) && is_some a.assignment_term))
      (conflict year_and_semester)
  pure (approval_semester env a.assignment_year a.assignment_term)

-- The group and the role that the applicant is promoted to.
unfoldable pub resolve_role : Application → Approval → DbExec (ℕ × ℕ)
resolve_role d a = do
  group_id ←
      or_raise (or_else a.accepted_group_id (or_else d.initial_group_id d.first_choice_group_id))
        (conflict no_group)
  raise_if (not (is_allowed_group d group_id)) (conflict group_not_chosen)
  role_id ← or_raise (or_else a.accepted_role_id d.initial_role_id) (conflict no_role)
  db ← gets (λ (db : Db). db)
  raise_if (not (role_matches_group role_id group_id db.roles)) (conflict role_mismatch)
  pure (group_id, role_id)

unfoldable pub promote_linked : ℕ → Application → ℕ → ℕ → ℕ → Bool → DbExec (ℕ × Option ℕ)
promote_linked linked_id d group_id role_id semester signed = in_people (
    add_application_assignment linked_id (some group_id) (some role_id) semester signed
      d.trial_assignment_id)

unfoldable pub promote_profile :
    Env → Option ℕ → Application → ℕ → ℕ → ℕ → Bool → DbExec (ℕ × Option ℕ)
promote_profile env linked_id d group_id role_id semester signed = in_people (
    create_from_application (to_onboarding env d "") (some group_id) (some role_id) semester signed
      linked_id d.trial_assignment_id)

-- The onboarding by the volunteers module: the volunteer's id.
unfoldable pub onboard : Env → Application → ℕ → ℕ → ℕ → Bool → Option ℕ → DbExec (ℕ × Option ℕ)
unfolding promote_linked promote_profile
onboard env d group_id role_id semester signed none = do
  reject_phone_duplicate env d
  promote_profile env none d group_id role_id semester signed
onboard env d group_id role_id semester signed (some linked_id) =
    if not d.owns_volunteer_profile
    then promote_linked linked_id d group_id role_id semester signed
    else promote_profile env (some linked_id) d group_id role_id semester signed

-- The end of the approval: the volunteer is found or made, and the row is marked.
unfoldable pub promote_detail : Env → Application → Approval → ℕ → ℕ → ℕ → DbExec (Application × ℕ)
promote_detail env detail a group_id role_id semester = do
  linked_id ← known_or_by_email detail.promoted_volunteer_id detail.email
  (volunteer_id, _) ← onboard env detail group_id role_id semester a.contract_signed linked_id
  modify (λ (db : Db). record db {
    applications =
        mark_promoted detail.registration_id volunteer_id group_id env.now db.applications;
  })
  pure (detail, volunteer_id)

unfoldable pub approve_application_record : Env → ℕ → Approval → DbExec (Application × ℕ)
approve_application_record env registration_id a = do
  detail ← lock_detail env registration_id
  raise_if (not (same_state detail.status trial)) (conflict only_trial)
  raise_if (not (profile_complete detail)) (conflict incomplete_profile)
  (group_id, role_id) ← resolve_role detail a
  semester ← resolve_semester env a
  promote_detail env detail a group_id role_id semester

unfoldable pub delete_application_record : Env → ℕ → DbExec Application
delete_application_record env registration_id = do
  detail ← lock_detail env registration_id
  raise_if (not (same_state detail.status new)) (conflict changed_concurrently)
  raise_if (is_some detail.submission) (conflict already_submitted)
  modify (delete_application registration_id)
  pure detail

-- `resend_invitation_record`
unfoldable pub resend_invitation_record : ℕ → DbExec Application
resend_invitation_record registration_id = require_detail registration_id

-- The new row, or the row of the duplicate.
invite_target : String → String → Option ℕ → Option ℕ → Option ℕ → DbExec Application
invite_target email token group_id role_id (some duplicate) db =
    resend_invitation_record duplicate db
invite_target email token group_id role_id none db =
    let (row, db') = create_invitation email token group_id role_id db in (ok row, db')

-- `create_invitation_record`, with the new token.
unfoldable pub create_invitation_record :
    Env → String → String → Option ℕ → Option ℕ → DbExec Application
unfolding invite_target
create_invitation_record env email token group_id role_id = do
  let normalized_email = lower (strip email)
  raise_if (not (is_nonempty normalized_email)) (conflict email_required)
  raise_if
      ((is_some group_id && not (is_some role_id)) || (not (is_some group_id) && is_some role_id))
      (conflict group_and_role)
  modify env.others
  rows ← gets (λ (db : Db). db.applications)
  invite_target normalized_email token group_id role_id
      (find_active_registration_for_target normalized_email group_id role_id none rows)
