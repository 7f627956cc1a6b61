-- ===== src/Applications/Workflow/Effects.antt =====
-- The calls of app/domain/volunteer_applications/service.py as units of work of workflow.py: the
-- commit, the side effects and the rollback.
use kvarteret_personal.Prelude.{ℕ, ◌≡◌, Option, String}
use kvarteret_personal.Exec.{Result, ok, err}
use kvarteret_personal.Applications.StateMachine.{contact, reject, reopen}
use kvarteret_personal.Applications.Store.{Application}
use kvarteret_personal.Applications.Service.{Env, Error}
use kvarteret_personal.Applications.Service.Records.{Approval}
use kvarteret_personal.Applications.Workflow.{World, Flow, plain_change, start_trial_flow}
use kvarteret_personal.Applications.Workflow.Calls.{
  approve, delete_flow, resend_flow, invite, as_conflict, restore_volunteer_application,
}
use kvarteret_personal.Applications.Workflow.Unit.{FiredClean, OnlyOthers}

-- The calls of the service that change an application.
pub data IsCall (env : Env) : (A : Type 0) → Flow A → Type 1 where
  invite_call :
      (delivery_id : ℕ) (email token : String) (group_id role_id actor : Option ℕ)
      → IsCall env Application (invite env delivery_id email token group_id role_id actor)
  contact_call :
      (id : ℕ) (actor : Option ℕ)
      → IsCall env Application (as_conflict (plain_change contact env id actor))
  start_trial_call :
      (delivery_id id : ℕ) (actor : Option ℕ)
      → IsCall env Application (as_conflict (start_trial_flow env delivery_id id actor))
  reject_call :
      (id : ℕ) (actor : Option ℕ)
      → IsCall env Application (as_conflict (plain_change reject env id actor))
  reopen_call :
      (id : ℕ) (actor : Option ℕ)
      → IsCall env Application (as_conflict (plain_change reopen env id actor))
  restore_call :
      (id : ℕ) (actor : Option ℕ)
      → IsCall env Application (restore_volunteer_application env id actor)
  approve_call :
      (id : ℕ) (a : Approval) (actor : Option ℕ)
      → IsCall env ℕ (as_conflict (approve env id a actor))
  delete_call :
      (id : ℕ) (actor : Option ℕ) → IsCall env (Unit {0}) (as_conflict (delete_flow env id actor))
  resend_call :
      (delivery_id id : ℕ) (actor : Option ℕ)
      → IsCall env Application (as_conflict (resend_flow env delivery_id id actor))

module _ (env : Env) {A : Type 0} where
  -- What a request leaves: session and durable state agree, and either the effects saw only durable
  -- data, or nothing but the commits of other requests is to be seen.
  abbrev pub Atomic : World → Result Error A → World → Type 0
  Atomic w (ok _) w' = (w'.session ≡ w'.durable) × FiredClean w'
  Atomic w (err _) w' =
      (w'.session ≡ w'.durable) × OnlyOthers env.others w.durable w'.durable × (w'.fired ≡ w.fired)
