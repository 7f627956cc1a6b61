-- ===== src/Applications/Workflow/Calls.antt =====
-- app/domain/volunteer_applications/workflow.py: approval, deletion, resending and inviting, and the
-- wrappers of service.py; `request` is a request that makes one call.
use kvarteret_personal.Prelude.{ℕ, not, ◌&&◌, Option, none, some, [], ◌∷◌, String, is_some}
use kvarteret_personal.Exec.{Result, ok, err, pure, raise_if, or_raise, ◌>>=◌, ◌>>◌}
use kvarteret_personal.EmailDelivery.{applicant_invitation}
use kvarteret_personal.Applications.StateMachine.{
  ApplicationAction, promote, restore_volunteer, delete, resend_invitation, TransitionContext,
  DomainEventRecord, text, number,
}
use kvarteret_personal.Applications.Store.{Application, profile_complete}
use kvarteret_personal.Applications.Service.{
  Env, Error, not_found, conflict, never_promoted, incomplete_profile,
}
use kvarteret_personal.Applications.Service.Records.{
  Approval, approve_application_record, delete_application_record, resend_invitation_record,
  create_invitation_record,
}
use kvarteret_personal.Applications.Workflow.{
  Flow, World, add_payload, after_approved, after_deleted, after_invited, after_resent,
  append_event, append_result, commit, conflict_for, enqueue_email, find_detail, fire, in_session,
  in_locked, dispatch_best_effort, map_event, plain_change, transition, with_actor, with_subject,
}

-- The transition of a registration, if the workflow finds it.
unfoldable pub transition_found :
    Option Application
    → ApplicationAction
    → (Application → TransitionContext)
    → Flow (Option DomainEventRecord)
transition_found none action ctx = pure none
transition_found (some d) action ctx = do
  result ← transition d.status action (ctx d)
  pure result.event

abbrev approval_context : Option ℕ → Application → TransitionContext
approval_context actor d = record {
  actor_user_account_id = actor;
  has_complete_profile = profile_complete d;
}

-- `approve`, with `_approve_one`
unfoldable pub approve : Env → ℕ → Approval → Option ℕ → Flow ℕ
unfolding transition_found append_result
approve env registration_id approval actor = do
  existing ← find_detail registration_id
  event ← transition_found existing promote (approval_context actor)
  (detail, volunteer_id) ← in_locked env (approve_application_record env registration_id approval)
  append_result
      (map_event
        (λ e. add_payload "volunteer_id" (number volunteer_id) (with_subject registration_id e))
        event)
      registration_id
  commit
  fire after_approved
  pure volunteer_id

-- `delete`
unfoldable pub delete_flow : Env → ℕ → Option ℕ → Flow (Unit {0})
unfolding transition_found append_result
delete_flow env registration_id actor = do
  existing ← find_detail registration_id
  event ← transition_found existing delete (λ _. with_actor actor)
  detail ← in_locked env (delete_application_record env registration_id)
  append_result
      (map_event (λ e. add_payload "email" (text detail.email) (with_subject registration_id e))
        event)
      registration_id
  commit
  fire after_deleted

unfoldable pub enqueue_resent : Env → ℕ → Application → Option ℕ → Flow (Unit {0})
enqueue_resent env delivery_id d none = pure tt
enqueue_resent env delivery_id d (some event_id) =
    enqueue_email env delivery_id applicant_invitation d event_id

-- `resend_invitation`
unfoldable pub resend_flow : Env → ℕ → ℕ → Option ℕ → Flow Application
unfolding transition_found append_result enqueue_resent
resend_flow env delivery_id registration_id actor = do
  existing ← find_detail registration_id
  event ← transition_found existing resend_invitation (λ _. with_actor actor)
  detail ← in_session (resend_invitation_record registration_id)
  event_id ← append_result (map_event (with_subject registration_id) event) registration_id
  enqueue_resent env delivery_id detail event_id
  commit
  fire after_resent
  dispatch_best_effort env
  pure detail

abbrev invited_event : Option ℕ → Application → DomainEventRecord
invited_event actor d = record {
  event_type = "application_invited";
  actor_user_account_id = actor;
  subject_type = "application";
  subject_id = d.registration_id;
  payload = ("email", text d.email) ∷ [];
}

-- `invite`
unfoldable pub invite :
    Env → ℕ → String → String → Option ℕ → Option ℕ → Option ℕ → Flow Application
invite env delivery_id email token group_id role_id actor = do
  detail ← in_locked env (create_invitation_record env email token group_id role_id)
  event_id ← append_event (invited_event actor detail) detail.registration_id
  enqueue_email env delivery_id applicant_invitation detail event_id
  commit
  fire after_invited
  dispatch_best_effort env
  pure detail

module _ {A : Type 0} where
  abbrev pub mapped : Result Error A → Result Error A
  mapped (ok a) = ok a
  mapped (err e) = err (conflict_for e)

  -- `except IllegalTransition as exc: raise VolunteerApplicationConflictError(...)`
  unfoldable pub as_conflict : Flow A → Flow A
  as_conflict m w = let (r, w') = m w in (mapped r, w')

  abbrev pub settle : Result Error A → World → World
  settle (ok _) w = w
  settle (err _) w = record w { session = w.durable }

  -- The end of a request: an exception rolls the session back.
  unfoldable pub request : Flow A → Flow A
  request m w = let (r, w') = m w in (r, settle r w')

-- `restore_volunteer_application` of service.py
unfoldable pub restore_volunteer_application : Env → ℕ → Option ℕ → Flow Application
unfolding as_conflict
restore_volunteer_application env registration_id actor = do
  found ← find_detail registration_id
  detail ← or_raise found not_found
  raise_if (not (is_some detail.promoted_volunteer_id && is_some detail.promoted_at))
      (conflict never_promoted)
  raise_if (not (profile_complete detail)) (conflict incomplete_profile)
  as_conflict (plain_change restore_volunteer env registration_id actor)
