-- ===== src/Examples/Lifecycle.antt =====
-- The theorems on the state machine and on the records of the applications at concrete rows.
use kvarteret_personal.Prelude.{
  ℕ, ◌≡◌, ◌↔◌, refl, true, false, Option, none, some, List, [], ◌∷◌, String,
}
use kvarteret_personal.Exec.{ok, ◌>>=◌}
use kvarteret_personal.Volunteers.{People, save_record, save_photo, place, create_from_application}
use kvarteret_personal.EmailOutbox.Service.{delivered}
use kvarteret_personal.Applications.StateMachine.{
  ApplicationState, PayloadValue, new, contacted, trial, contact, Outcome, DomainEventRecord, text,
  value, application_transition, transition_event, default_context,
}
use kvarteret_personal.Applications.StateMachine.Diagram.{Arrow, Allows, transition-iff-Arrow}
use kvarteret_personal.Applications.StateMachine.Audit.{
  recorded_action, event_of, transition_audited,
}
use kvarteret_personal.Applications.Store.{
  Db, Application, Submission, profile_complete, get_detail,
}
use kvarteret_personal.Applications.Store.Statements.{
  role_matches_group, match_email, match_phone, delete_application,
}
use kvarteret_personal.Applications.Service.{
  Env, require_detail, lock_detail, known_or_by_email, reject_phone_duplicate, in_people,
}
use kvarteret_personal.Applications.Service.Records.{
  Approval, resolve_role, resolve_semester, onboard, promote_profile, promote_detail,
  approve_application_record, delete_application_record,
}
use kvarteret_personal.Applications.Service.Approve.{Approved, approve_record_sound}
use kvarteret_personal.Applications.Service.Delete.{Deleted, delete_record_sound}
use kvarteret_personal.Text.{strip}
use kvarteret_personal.Phone.{
  normalize_phone_number, analyze_phone_number, clean_phone_input, squeeze, drop_trunk_zero,
  has_alpha, digits_of, parse_phone_number, is_obviously_false_phone_number,
}
use kvarteret_personal.Examples.Phones.{one_number}

-- Nobody else writes to the database.
abbrev pub quiet_env : Env
quiet_env = record {
  phone_numbers = one_number;
  year = 2026;
  month = 9;
  now = 1000;
  others = λ db. db;
  mailer = record {
    email_dispatch_enabled = true;
    locked = λ id. false;
    owner = λ id. id;
    attempt = λ id. record {
      started_at = 1000;
      prepared_at = 1001;
      finished_at = 1002;
      duration_ms = 20;
      attempted = delivered;
    };
  };
}

abbrev full_submission : Submission
full_submission = record {
  id = 1;
  first_name = some "Kari";
  last_name = some "Nordmann";
  phone = some "+4791234567";
  birth_date = some 11000;
  gender = some "K";
  street_address = some "Olav Kyrres gate 49";
  postal_code = some "5015";
  photo_sha1 = some "a9993e36";
  photo_filetype = some "jpg";
}

abbrev pub application_at : ℕ → ApplicationState → Option Submission → Application
application_at id status submission = record {
  registration_id = id;
  token = "token";
  email = "kari@example.org";
  source = "public";
  status = status;
  initial_group_id = some 5;
  initial_role_id = some 3;
  first_choice_group_id = none;
  trial_started_at = none;
  trial_ends_at = none;
  full_profile_submitted_at = some 900;
  promoted_volunteer_id = none;
  promoted_at = none;
  trial_assignment_id = none;
  owns_volunteer_profile = false;
  submission = submission;
}

abbrev pub nobody_yet : People
nobody_yet = record {
  records = [];
  photos = [];
  assignments = [];
  next_volunteer_id = 40;
  next_assignment_id = 60;
  invalidated = [];
}

abbrev pub db_with : List Application → Db
db_with rows = record {
  applications = rows;
  next_registration_id = 100;
  events = [];
  next_event_id = 1;
  prospects = [];
  roles = record { id = 3; group_id = 5 } ∷ [];
  people = nobody_yet;
  outbox = record { deliveries = []; attempts = []; next_attempt_id = 1; sends = [] };
}

transition-iff-Arrow_example :
    ((e : DomainEventRecord) × (application_transition new contact default_context
        ≡ Outcome.ok (record { new_state = contacted; event = some e })))
    ↔ (Arrow new contact contacted × Allows default_context contact)
transition-iff-Arrow_example = transition-iff-Arrow new contacted contact default_context

contact_event :
    event_of (application_transition new contact default_context)
    ≡ some (transition_event "application_contacted" new default_context)
unfolding application_transition
contact_event = refl

transition_audited_example :
    (recorded_action "application_contacted" ≡ some contact)
    × (◌≡◌ {A = List (String × PayloadValue)}
        (("previous_state", text "new") ∷ [])
        (("previous_state", text (value new)) ∷ []))
    × (◌≡◌ {A = Option ℕ} none none)
transition_audited_example = transition_audited new contact default_context contact_event

abbrev on_trial : Db
on_trial = db_with (application_at 6 new none ∷ application_at 7 trial (some full_submission) ∷ [])

abbrev for_group_5 : Approval
for_group_5 = record {
  accepted_group_id = none;
  accepted_role_id = none;
  assignment_year = some 2027;
  assignment_term = some 1;
  contract_signed = true;
}

abbrev approved_db : Db
approved_db = (approve_application_record quiet_env 7 for_group_5 on_trial).1

approve_runs :
    approve_application_record quiet_env 7 for_group_5 on_trial
    ≡ (ok (application_at 7 trial (some full_submission), 40), approved_db)
unfolding approve_application_record ◌>>=◌ lock_detail require_detail get_detail profile_complete
    resolve_role resolve_semester promote_detail known_or_by_email onboard reject_phone_duplicate
    in_people match_email match_phone role_matches_group promote_profile create_from_application
    save_record save_photo place strip normalize_phone_number analyze_phone_number clean_phone_input
    squeeze drop_trunk_zero has_alpha digits_of parse_phone_number is_obviously_false_phone_number
approve_runs = refl

approve_record_sound_example :
    Approved quiet_env 7 (application_at 7 trial (some full_submission)) 40 on_trial approved_db
approve_record_sound_example =
    approve_record_sound quiet_env 7 for_group_5 on_trial approved_db
      (application_at 7 trial (some full_submission)) 40 approve_runs

abbrev deleted_db : Db
deleted_db = (delete_application_record quiet_env 6 on_trial).1

delete_runs :
    delete_application_record quiet_env 6 on_trial ≡ (ok (application_at 6 new none), deleted_db)
unfolding delete_application_record ◌>>=◌ lock_detail require_detail get_detail delete_application
delete_runs = refl

delete_record_sound_example : Deleted quiet_env 6 (application_at 6 new none) on_trial deleted_db
delete_record_sound_example =
    delete_record_sound quiet_env 6 on_trial deleted_db (application_at 6 new none) delete_runs
