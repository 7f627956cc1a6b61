-- ===== src/Applications/StateMachine/Audit.antt =====
-- The audit events of app/domain/volunteer_applications/state_machine.py.
use kvarteret_personal.Prelude.{
  ℕ, ◌≡◌, refl, Bool, true, false, Option, none, some, [], ◌∷◌, String, str_eq, if◌then◌else◌,
}
use kvarteret_personal.Applications.StateMachine.{
  ApplicationState, ApplicationAction, TransitionContext, TransitionResult, Outcome, ok, err,
  DomainEventRecord, text, application_transition, value, new, contacted, trial, volunteer,
  not_volunteer, submit_profile, resend_invitation, contact, start_trial, promote, reject, reopen,
  restore_volunteer, delete,
}

-- The action that an audit row of this event type records.
abbrev pub recorded_action : String → Option ApplicationAction
recorded_action e =
    if str_eq e "application_deleted"
    then some delete
    else if str_eq e "profile_completed"
    then some submit_profile
    else if str_eq e "application_submitted"
    then some submit_profile
    else if str_eq e "invitation_resent"
    then some resend_invitation
    else if str_eq e "application_contacted"
    then some contact
    else if str_eq e "trial_started"
    then some start_trial
    else if str_eq e "application_approved"
    then some promote
    else if str_eq e "application_rejected"
    then some reject
    else if str_eq e "application_reopened"
    then some reopen
    else if str_eq e "application_volunteer_restored"
    then some restore_volunteer
    else none

-- The event of an outcome, if it has one.
abbrev pub event_of : Outcome TransitionResult → Option DomainEventRecord
event_of (ok r) = r.event
event_of (err _) = none

abbrev Records :
    ApplicationState → ApplicationAction → TransitionContext → Option DomainEventRecord → Type 0
Records s a ctx none = Unit
Records s a ctx (some e) =
    (recorded_action e.event_type ≡ some a)
    × (e.payload ≡ ("previous_state", text (value s)) ∷ [])
    × (e.actor_user_account_id ≡ ctx.actor_user_account_id)

transition-Records :
    (s : ApplicationState) (a : ApplicationAction) (b : Bool) (actor : Option ℕ)
    → let ctx : TransitionContext = record {
      actor_user_account_id = actor;
      has_complete_profile = b;
    } in
      Records s a ctx (event_of (application_transition s a ctx))
unfolding application_transition
transition-Records new submit_profile b actor = (refl, refl, refl)
transition-Records contacted submit_profile b actor = (refl, refl, refl)
transition-Records trial submit_profile b actor = (refl, refl, refl)
transition-Records volunteer submit_profile b actor = (refl, refl, refl)
transition-Records not_volunteer submit_profile b actor = tt
transition-Records new resend_invitation b actor = (refl, refl, refl)
transition-Records contacted resend_invitation b actor = (refl, refl, refl)
transition-Records new contact b actor = (refl, refl, refl)
transition-Records contacted start_trial b actor = (refl, refl, refl)
transition-Records trial promote true actor = (refl, refl, refl)
transition-Records new promote true actor = tt
transition-Records contacted promote true actor = tt
transition-Records volunteer promote true actor = tt
transition-Records not_volunteer promote true actor = tt
transition-Records _ promote false actor = tt
transition-Records not_volunteer reject b actor = tt
transition-Records _ reject b actor = (refl, refl, refl)
transition-Records not_volunteer reopen b actor = (refl, refl, refl)
transition-Records not_volunteer restore_volunteer b actor = (refl, refl, refl)
transition-Records new delete b actor = (refl, refl, refl)
transition-Records _ _ b actor = tt

-- If a transition emits an event, the type of the event names the action, its payload is the state
-- before it, and its actor is that of the context.
pub transition_audited :
    (s : ApplicationState) (a : ApplicationAction) (ctx : TransitionContext) {e : DomainEventRecord}
    → event_of (application_transition s a ctx) ≡ some e
    → (recorded_action e.event_type ≡ some a)
      × (e.payload ≡ ("previous_state", text (value s)) ∷ [])
      × (e.actor_user_account_id ≡ ctx.actor_user_account_id)
transition_audited s a ctx h =
    rw h at (transition-Records s a ctx.has_complete_profile ctx.actor_user_account_id)
