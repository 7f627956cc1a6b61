-- ===== src/Applications/Workflow.antt =====
-- app/domain/volunteer_applications/workflow.py: the coordinator of the lifecycle. `session` is what the request's
-- transaction sees, `durable` what its last commit wrote. A side effect that runs outside the
-- transaction is recorded with both. Tracing and logging are left out, and so are the payload
-- entries of the invitation event and the public registration of prospects.
pub mod Calls
pub mod Unit
pub mod Change
pub mod Progress
pub mod Effects
use kvarteret_personal.Prelude.{
  ℕ, suc, ◌+◌, Bool, true, false, not, ◌&&◌, ◌||◌, Option, none, some, List, [], ◌∷◌, ◌++◌, String,
  if◌then◌else◌, is_some,
}
use kvarteret_personal.Exec.{
  Exec, Result, ok, err, pure, raise, raise_if, or_raise, gets, modify, ◌>>=◌, ◌>>◌,
}
use kvarteret_personal.EmailDelivery.{
  Template, applicant_invitation, applicant_profile_completion, EmailDeliveryRequest, domain_event,
}
use kvarteret_personal.EmailOutbox.{Outbox, enqueue}
use kvarteret_personal.EmailOutbox.Service.{dispatch_due}
use kvarteret_personal.Applications.Service
use kvarteret_personal.Applications.StateMachine.{
  ApplicationState, ApplicationAction, contact, start_trial, promote, reject, reopen,
  restore_volunteer, delete, resend_invitation, value, TransitionError, illegal_transition,
  key_error, Outcome, TransitionContext, TransitionResult, DomainEventRecord, PayloadValue, text,
  number, application_transition,
}
use kvarteret_personal.Applications.Store.{Db, Application, get_detail, profile_complete}
use kvarteret_personal.Applications.Store.Statements.{append_domain_event}
use kvarteret_personal.Applications.Service.{
  Env, Error, not_found, conflict, transition_refused, never_promoted, incomplete_profile,
  runtime_error, DbExec, set_application_status_record,
}
use kvarteret_personal.Applications.Service.Records.{
  Approval, approve_application_record, delete_application_record, resend_invitation_record,
  create_invitation_record,
}

-- What runs after the commit: the hooks of side_effects.py and the immediate dispatch.
pub data Effect : Type 0 where
  after_invited after_trial_started after_approved after_deleted after_resent dispatch : Effect

-- An effect, with the session and the durable state when it ran.
pub record Fired : Type 0 where
  pub effect : Effect
  pub session : Db
  pub durable : Db

pub record World : Type 0 where
  pub session : Db
  pub durable : Db
  pub fired : List Fired

abbrev pub Flow : Type 0 → Type 0
Flow A = Exec World Error A

module _ {A : Type 0} where
  -- A call of the operations, in the session.
  unfoldable pub in_session : DbExec A → Flow A
  in_session m w = let (r, db) = m w.session in (r, record w { session = db })

  -- A call of an operation that waits for the lock: what the other requests commit in the meantime,
  -- `others`, is durable whatever comes of this one, and the session sees it behind the lock.
  unfoldable pub in_locked : Env → DbExec A → Flow A
  in_locked env m w =
      let (r, db) = m w.session in (r, record w { session = db; durable = env.others w.durable })

-- `commit_request_session`
unfoldable pub commit : Flow (Unit {0})
commit w = (ok tt, record w { durable = w.session })

unfoldable pub fire : Effect → Flow (Unit {0})
fire e w = (
  ok tt,
  record w {
    fired = w.fired ++ record { effect = e; session = w.session; durable = w.durable } ∷ [];
  },
)

-- An illegal transition as the callers of the service see it.
abbrev conflict_for : Error → Error
conflict_for Service.illegal_transition = conflict transition_refused
conflict_for e = e

abbrev pub raise_transition : TransitionError → Error
raise_transition illegal_transition = Service.illegal_transition
raise_transition key_error = Service.key_error

-- `application_transition`, whose exceptions are raised.
abbrev pub to_flow : Outcome TransitionResult → Flow TransitionResult
to_flow (Outcome.ok r) = pure r
to_flow (Outcome.err e) = raise (raise_transition e)

abbrev pub transition :
    ApplicationState → ApplicationAction → TransitionContext → Flow TransitionResult
transition state action ctx = to_flow (application_transition state action ctx)

abbrev pub with_actor : Option ℕ → TransitionContext
with_actor actor = record { actor_user_account_id = actor; has_complete_profile = true }

unfoldable pub find_detail : ℕ → Flow (Option Application)
find_detail registration_id =
    gets (λ (w : World). get_detail registration_id w.session.applications)

unfoldable pub append_event : DomainEventRecord → ℕ → Flow ℕ
append_event event subject_id w =
    let (id, db) = append_domain_event event subject_id w.session in
    (ok id, record w { session = db })

-- `replace(event, payload={**event.payload, key: v})`
abbrev pub add_payload : String → PayloadValue → DomainEventRecord → DomainEventRecord
add_payload key v e = record e { payload = e.payload ++ (key, v) ∷ [] }

abbrev with_subject : ℕ → DomainEventRecord → DomainEventRecord
with_subject id e = record e { subject_id = id }

abbrev email_request : Template → Application → ℕ → EmailDeliveryRequest
email_request template d event_id = record {
  template_key = template;
  template_version = 1;
  recipient_email = d.email;
  business_type = "volunteer_application";
  business_id = d.registration_id;
  idempotency_key = domain_event event_id template;
  registration_id = some d.registration_id;
  source_domain_event_id = some event_id;
  encrypted_context = none;
  supersedes_delivery_id = none;
}

-- `_enqueue_volunteer_email`, with the id of the delivery if it is new.
unfoldable pub enqueue_email : Env → ℕ → Template → Application → ℕ → Flow (Unit {0})
enqueue_email env delivery_id template d event_id = modify (λ (w : World). record w {
  session = record w.session {
    outbox = (enqueue (email_request template d event_id) delivery_id env.now w.session.outbox).1;
  };
})

-- The event of a transition is appended; `none` is a result without an event.
unfoldable pub append_result : Option DomainEventRecord → ℕ → Flow (Option ℕ)
append_result none subject_id = pure none
append_result (some e) subject_id = do id ← append_event e subject_id; pure (some id)

abbrev pub map_event :
    (DomainEventRecord → DomainEventRecord) → Option DomainEventRecord → Option DomainEventRecord
map_event f none = none
map_event f (some e) = some (f e)

unfoldable pub enqueue_for : Env → ℕ → Option Template → Application → Option ℕ → Flow (Unit {0})
enqueue_for env delivery_id none d event_id = pure tt
enqueue_for env delivery_id (some template) d none = raise runtime_error
enqueue_for env delivery_id (some template) d (some event_id) =
    enqueue_email env delivery_id template d event_id

-- `dispatch_due` in the session.
unfoldable pub dispatch_session : Env → Db → Db
dispatch_session env db = record db {
  outbox =
      (dispatch_due env.mailer.email_dispatch_enabled 10 env.now env.mailer.locked env.mailer.owner
        env.mailer.attempt db.outbox).1;
}

-- `_dispatch_best_effort`. The dispatcher commits behind each of its writes, also where an exception
-- ends it, which is swallowed here.
unfoldable pub dispatch_best_effort : Env → Flow (Unit {0})
dispatch_best_effort env w =
    let db = dispatch_session env w.session in
    (
      ok tt,
      record w {
        session = db;
        durable = db;
        fired =
            w.fired ++ record { effect = dispatch; session = w.session; durable = w.durable } ∷ [];
      },
    )

unfoldable pub dispatch_if : Env → Option Template → Flow (Unit {0})
dispatch_if env none = pure tt
dispatch_if env (some _) = dispatch_best_effort env

-- `_change_status`
unfoldable pub change_status :
    Env → ℕ → ℕ → ApplicationAction → Option ℕ → Bool → Option Template → Flow Application
unfolding append_result enqueue_for dispatch_if
change_status env delivery_id registration_id action actor starts template = do
  found ← find_detail registration_id
  existing ← or_raise found not_found
  result ← transition existing.status action (with_actor actor)
  detail ←
      in_locked env
        (set_application_status_record env registration_id result.new_state existing.status starts)
  event_id ←
      append_result
        (map_event (add_payload "new_state" (text (value result.new_state))) result.event)
        registration_id
  enqueue_for env delivery_id template detail event_id
  commit
  dispatch_if env template
  pure detail

-- `contact`, `reject`, `reopen` and `restore_volunteer`
abbrev pub plain_change : ApplicationAction → Env → ℕ → Option ℕ → Flow Application
plain_change action env registration_id actor =
    change_status env 0 registration_id action actor false none

-- `start_trial`
unfoldable pub start_trial_flow : Env → ℕ → ℕ → Option ℕ → Flow Application
start_trial_flow env delivery_id registration_id actor = do
  detail ←
      change_status env delivery_id registration_id start_trial actor true
        (some applicant_profile_completion)
  fire after_trial_started
  pure detail
