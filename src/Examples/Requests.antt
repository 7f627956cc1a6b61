-- ===== src/Examples/Requests.antt =====
-- The theorems on the coordinator's calls at one request.
use kvarteret_personal.Prelude.{◌≡◌, refl, false, none, some, [], ◌∷◌}
use kvarteret_personal.Exec.{ok, ◌>>=◌}
use kvarteret_personal.Applications.StateMachine.{new, contacted, contact, application_transition}
use kvarteret_personal.Applications.Store.{get_detail}
use kvarteret_personal.Applications.Store.Statements.{set_application_status, append_domain_event}
use kvarteret_personal.Applications.Service.{
  require_detail, lock_detail, check_duplicate, drop_trial_assignment, place_trial, write_status,
  set_application_status_record,
}
use kvarteret_personal.Applications.Workflow.{
  World, in_locked, commit, find_detail, append_event, append_result, enqueue_for, dispatch_if,
  change_status, plain_change,
}
use kvarteret_personal.Applications.Workflow.Change.{Transitioned, change_status_sound}
use kvarteret_personal.Applications.Workflow.Progress.{contacted_world, contact_completes}
use kvarteret_personal.Examples.Lifecycle.{quiet_env, application_at, db_with}

abbrev before_contact : World
before_contact =
    let db = db_with (application_at 7 new none ∷ application_at 8 contacted none ∷ []) in
    record { session = db; durable = db; fired = [] }

abbrev after_contact : World
after_contact = (plain_change contact quiet_env 7 (some 1) before_contact).1

contact_runs :
    plain_change contact quiet_env 7 (some 1) before_contact
    ≡ (ok (application_at 7 contacted none), after_contact)
unfolding change_status ◌>>=◌ find_detail application_transition in_locked
    set_application_status_record lock_detail require_detail get_detail check_duplicate
    drop_trial_assignment place_trial write_status set_application_status append_result append_event
    append_domain_event enqueue_for commit dispatch_if
contact_runs = refl

change_status_sound_example :
    Transitioned quiet_env 7 contact
      (some 1)
      (application_at 7 contacted none)
      before_contact
      after_contact
change_status_sound_example =
    change_status_sound quiet_env 0 7 contact (some 1) false none before_contact after_contact
      (application_at 7 contacted none) contact_runs

seventh_found : get_detail 7 before_contact.session.applications ≡ some (application_at 7 new none)
unfolding get_detail
seventh_found = refl

contact_completes_example : plain_change contact quiet_env 7 (some 1) before_contact ≡ (
  ok (application_at 7 contacted none),
  contacted_world quiet_env 7 (some 1) (application_at 7 new none) before_contact,
)
contact_completes_example =
    contact_completes quiet_env 7 (some 1) before_contact (application_at 7 new none) refl
      seventh_found refl
