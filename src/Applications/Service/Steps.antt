-- ===== src/Applications/Service/Steps.antt =====
-- The steps of set_application_status_record of app/domain/volunteer_applications/service.py before
-- its write, and the rows that they keep.
use kvarteret_personal.Prelude.{ℕ, ◌≡◌, Bool, String, Option, none, some, List}
use kvarteret_personal.Exec.Keeps.{Keeps, keeps_rules}
use kvarteret_personal.Volunteers.{PeopleExec}
use kvarteret_personal.Applications.StateMachine.{ApplicationState}
use kvarteret_personal.Applications.Store.{EventRow, Db, Application}
use kvarteret_personal.Applications.Store.Statements.{EmailMatch, nobody, several, one}
use kvarteret_personal.Applications.Service.{
  Env, in_people, reject_phone_duplicate, known_or_by_email, place_trial, check_duplicate,
  drop_trial_assignment, place_known, place_new, place_applicant, place_by_email, from_match,
  raise_duplicate, drop_assignment,
}

-- The applications and the events.
abbrev pub rows_of : Db → List Application × List EventRow
rows_of db = (db.applications, db.events)

abbrev pub HasRows : List Application × List EventRow → Db → Type 0
HasRows rows db = rows_of db ≡ rows

module _ {A : Type 0} {rows : List Application × List EventRow} where
  pub in_people-Keeps : (m : PeopleExec A) → Keeps (HasRows rows) (in_people m)
  unfolding in_people
  in_people-Keeps m = record { at = λ s h. h }

module _ {rows : List Application × List EventRow} where
  pub raise_duplicate-Keeps : (o : Option ℕ) → Keeps (HasRows rows) (raise_duplicate o)
  unfolding raise_duplicate
  raise_duplicate-Keeps none = search keeps_rules
  raise_duplicate-Keeps (some id) = search keeps_rules

  pub from_match-Keeps : (m : EmailMatch) → Keeps (HasRows rows) (from_match m)
  from_match-Keeps nobody = search keeps_rules
  from_match-Keeps (one id) = search keeps_rules
  from_match-Keeps several = search keeps_rules

  pub ruleset row_rules = (keeps_rules, in_people-Keeps, raise_duplicate-Keeps, from_match-Keeps)

  pub reject_phone_duplicate-Keeps :
      (env : Env) (d : Application) → Keeps (HasRows rows) (reject_phone_duplicate env d)
  unfolding reject_phone_duplicate
  reject_phone_duplicate-Keeps env d = search row_rules depth 20

  pub known_or_by_email-Keeps :
      (known : Option ℕ) (email : String) → Keeps (HasRows rows) (known_or_by_email known email)
  unfolding known_or_by_email
  known_or_by_email-Keeps known email = search row_rules depth 20

  pub check_duplicate-Keeps :
      (d : Application) (status : ApplicationState) (starts : Bool)
      → Keeps (HasRows rows) (check_duplicate d status starts)
  unfolding check_duplicate
  check_duplicate-Keeps d status starts = search row_rules depth 20

  drop_assignment-Keeps : (a v : Option ℕ) → Keeps (HasRows rows) (drop_assignment a v)
  unfolding drop_assignment
  drop_assignment-Keeps (some a) (some v) = search row_rules
  drop_assignment-Keeps (some a) none = search row_rules
  drop_assignment-Keeps none v = search row_rules

  pub drop_trial_assignment-Keeps :
      (d : Application) (status : ApplicationState)
      → Keeps (HasRows rows) (drop_trial_assignment d status)
  unfolding drop_trial_assignment
  drop_trial_assignment-Keeps d status = search (row_rules, drop_assignment-Keeps) depth 20

  place_applicant-Keeps :
      (env : Env) (d : Application) (v : Option ℕ) → Keeps (HasRows rows) (place_applicant env d v)
  unfolding place_applicant place_known place_new
  place_applicant-Keeps env d none = search (row_rules, reject_phone_duplicate-Keeps) depth 20
  place_applicant-Keeps env d (some v) = search row_rules depth 20

  pub place_trial-Keeps :
      (env : Env) (d : Application) (starts : Bool)
      → Keeps (HasRows rows) (place_trial env d starts)
  unfolding place_trial place_by_email
  place_trial-Keeps env d starts =
      search (row_rules, place_applicant-Keeps, known_or_by_email-Keeps) depth 20
