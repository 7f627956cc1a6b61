-- ===== src/Applications/StateMachine.antt =====
-- app/domain/volunteer_applications/state_machine.py: the states, the actions, the transition
-- table and `application_transition`. A raised exception is an `err`; the fields of the event
-- record that the database or the clock fills in (occurred_at, event_id, trace_id) are left out.
pub mod Diagram
pub mod Audit
use kvarteret_personal.Prelude.{
  ℕ, Bool, true, false, not, Option, none, some, List, [], ◌∷◌, String, ◌&&◌, if◌then◌else◌,
}

pub data ApplicationState : Type 0 where
  new contacted trial volunteer not_volunteer : ApplicationState

pub data ApplicationAction : Type 0 where
  submit_profile resend_invitation contact start_trial promote reject reopen : ApplicationAction
  restore_volunteer delete : ApplicationAction

pub ApplicationState-discrete : Discrete ApplicationState
ApplicationState-discrete = hlevel

-- `ApplicationState.value`
abbrev pub value : ApplicationState → String
value new = "new"
value contacted = "contacted"
value trial = "trial"
value volunteer = "volunteer"
value not_volunteer = "not_volunteer"

-- the comparison of two members of the enum
abbrev pub same_state : ApplicationState → ApplicationState → Bool
same_state new new = true
same_state contacted contacted = true
same_state trial trial = true
same_state volunteer volunteer = true
same_state not_volunteer not_volunteer = true
same_state _ _ = false

-- `IllegalTransition`, and the KeyError of a missing entry of `_EVENT_TYPES`
pub data TransitionError : Type 0 where
  illegal_transition key_error : TransitionError

pub data Outcome {ℓ} (A : Type ℓ) : Type ℓ where
  ok : A → Outcome A
  err : TransitionError → Outcome A

-- The table `_TRANSITIONS`.
unfoldable pub transitions : ApplicationState → ApplicationAction → Option ApplicationState
transitions new submit_profile = some new
transitions contacted submit_profile = some contacted
transitions trial submit_profile = some trial
transitions volunteer submit_profile = some volunteer
transitions new resend_invitation = some new
transitions contacted resend_invitation = some contacted
transitions new contact = some contacted
transitions contacted start_trial = some trial
transitions trial promote = some volunteer
transitions new reject = some not_volunteer
transitions contacted reject = some not_volunteer
transitions trial reject = some not_volunteer
transitions volunteer reject = some not_volunteer
transitions not_volunteer reopen = some contacted
transitions not_volunteer restore_volunteer = some volunteer
transitions _ _ = none

-- `action in _DELETE_ACTIONS`
abbrev pub in_delete_actions : ApplicationAction → Bool
in_delete_actions delete = true
in_delete_actions _ = false

-- The table `_EVENT_TYPES`; `none` is a missing key.
unfoldable pub event_types : ApplicationAction → Option String
event_types resend_invitation = some "invitation_resent"
event_types contact = some "application_contacted"
event_types start_trial = some "trial_started"
event_types promote = some "application_approved"
event_types reject = some "application_rejected"
event_types reopen = some "application_reopened"
event_types restore_volunteer = some "application_volunteer_restored"
event_types _ = none

-- A value of an event's payload.
pub data PayloadValue : Type 0 where
  text : String → PayloadValue
  number : ℕ → PayloadValue

pub record DomainEventRecord : Type 0 where
  pub event_type : String
  pub actor_user_account_id : Option ℕ
  pub subject_type : String
  pub subject_id : ℕ
  pub payload : List (String × PayloadValue)

pub record TransitionResult : Type 0 where
  pub new_state : ApplicationState
  pub event : Option DomainEventRecord

pub record TransitionContext : Type 0 where
  pub actor_user_account_id : Option ℕ
  pub has_complete_profile : Bool

-- `TransitionContext()`
abbrev pub default_context : TransitionContext
default_context = record { actor_user_account_id = none; has_complete_profile = true }

-- The event that both returns of `application_transition` build.
abbrev pub transition_event : String → ApplicationState → TransitionContext → DomainEventRecord
transition_event event_type state ctx = record {
  event_type = event_type;
  actor_user_account_id = ctx.actor_user_account_id;
  subject_type = "application";
  subject_id = 0;
  payload = ("previous_state", text (value state)) ∷ [];
}

abbrev pub is_promote : ApplicationAction → Bool
is_promote promote = true
is_promote _ = false

-- The event type of an action that the table allows.
unfoldable pub resolve_event_type : ApplicationState → ApplicationAction → Option String
unfolding event_types
resolve_event_type trial submit_profile = some "profile_completed"
resolve_event_type volunteer submit_profile = some "profile_completed"
resolve_event_type _ submit_profile = some "application_submitted"
resolve_event_type _ action = event_types action

abbrev emit :
    ApplicationState
    → ApplicationState
    → TransitionContext
    → Option String
    → Outcome TransitionResult
emit state new_state ctx none = err key_error
emit state new_state ctx (some event_type) =
    ok (record { new_state = new_state; event = some (transition_event event_type state ctx) })

abbrev follow :
    ApplicationState
    → ApplicationAction
    → TransitionContext
    → Option ApplicationState
    → Outcome TransitionResult
follow state action ctx none = err illegal_transition
follow state action ctx (some new_state) =
    emit state new_state ctx (resolve_event_type state action)

unfoldable pub application_transition :
    ApplicationState → ApplicationAction → TransitionContext → Outcome TransitionResult
unfolding transitions resolve_event_type
application_transition state action ctx =
    if in_delete_actions action && same_state state new
    then ok (record {
      new_state = state;
      event = some (transition_event "application_deleted" state ctx);
    })
    else if is_promote action && not ctx.has_complete_profile
    then err illegal_transition
    else follow state action ctx (transitions state action)
