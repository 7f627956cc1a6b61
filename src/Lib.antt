-- ===== src/Lib.antt =====
-- Kvarteret's volunteer administration: the life of a volunteer application, from the invitation to
-- the promotion, and the parts that it stands on.
--
-- The parts and how they interact. A request calls app/domain/volunteer_applications/service.py,
-- which hands the lifecycle to the coordinator in workflow.py. The coordinator asks the pure state
-- machine of state_machine.py whether the action is legal, calls a record operation of service.py,
-- which locks the registration and writes through repository.py, appends the audit event, enqueues
-- the mail in the outbox, commits, and then runs the side effects. Onboarding goes to
-- app/domain/volunteers. The outbox (app/email_outbox_repository.py, app/email_outbox_service.py) is
-- a queue in the database: workers claim due deliveries under a lease, attempt them, and settle or
-- reschedule them. Phone numbers (app/shared/phone_numbers.py) and semester codes
-- (app/shared/semester.py) are shared by all.
--
-- Beside the applications stand: the roles of volunteers in groups and semesters, with the yearly
-- transfer (app/domain/role_assignments), courses on the same tables (app/domain/courses), the
-- groups themselves (app/domain/groups), the cache of the services (app/cache.py), and accounts,
-- sessions and login (app/auth), whose session store is the database behind that cache.
--
-- The files.
--   Prelude: names of the libraries, Boolean tests on numbers, lists, dictionary keys.
--   Text: strip, lower, isdigit and len of Python's str; lower changes ASCII letters only and
--     isdigit knows ASCII digits only, so a postal code in other digits counts as incomplete.
--   Exec: methods that change a state and may raise, as functions from a state to a result and the
--     state left behind; Exec/Keeps has the rules for invariants of such methods.
--   Semester: app/shared/semester.py and _default_target_semester of
--     app/domain/role_assignments/semester_transfer.py; Semester/Order has the theorems.
--   Phone: app/shared/phone_numbers.py; the library phonenumbers is the parameter `PhoneNumbers`,
--     and what one theorem relies on of it is the record `FormatsE164`.
--   RateLimit: the limiter in the database of app/db/rate_limit.py.
--   Volunteers: create_from_application, add_application_assignment and remove_trial_assignment of
--     app/domain/volunteers/service.py and repository.py.
--   Cache: app/cache.py; its children are proofs.
--   Auth, of app/auth: Roles is the roles of roles.py, Repository is models.py and repository.py,
--     SessionStore is session_store.py, Login is login_service.py. Loaded, Loads, Provenance,
--     Revocation, Staleness and the children of Login are proofs.
--   RoleAssignments, of app/domain/role_assignments: repository.py, and Service for service.py;
--     Transfer is apply_transfer of semester_transfer.py. The other children are proofs.
--   Groups, of app/domain/groups: Points, Tables and Service are service.py with the blockers of
--     queries.py; Slugs is app/shared/slugs.py. References, Deletions and Slugs/Shape are proofs.
--   Courses: app/domain/courses/service.py over repository.py, on the state of RoleAssignments. What
--     the service looks up by a name is looked up in a list of names; Completions and Missing are
--     proofs.
--   EmailDelivery: app/email_delivery.py and app/db/table_defs/email_delivery.py.
--   EmailOutbox, with EmailOutbox/Attempts: app/email_outbox_repository.py; EmailOutbox/Service, with
--     its child Manual: app/email_outbox_service.py. Lease, Retry, Settle and Recovery are proofs.
--   Applications, of app/domain/volunteer_applications: StateMachine is state_machine.py; Store, with
--     its child Statements, is tables.py, repository.py and profile_complete of models.py; Service,
--     with its child Records, is service.py; Workflow, with its child Calls, is workflow.py. The
--     other children are proofs.
--   Examples: concrete values, tests by computation, and the theorems at these values.
--
-- The state. A table is a list of rows; `Db` is the database that the applications see, `Outbox`
-- the two tables of the queue, `People` those of the volunteers, `Positions` and `GroupsDb` what
-- role assignments and groups read and write, `AuthDb` accounts and sessions, and `SessionStore` is
-- that beside the cache. `World` is a request: its session, what is durable, and the side effects
-- that ran, each with both databases at that moment. A transaction that waits for a lock lets
-- others commit; what they do is the function `others` of `Env`, which may be anything, and is
-- durable whatever comes of the request. The dispatch behind a commit is a run of the modelled
-- dispatcher in the same session, under the circumstances `mailer` of `Env`. `sends` of `Outbox`
-- holds the calls of the mail sender. The deletion of a session is two steps, with other calls of
-- the process in between; a load of a session is one. For the outbox, every operation is followed
-- by a commit, so its operations are the steps; rows that another worker has locked are the
-- argument `locked`. Exceptions are results.
--
-- Bounds and fuel. No definition runs on fuel: each loop of the code is over a list. Numbers are
-- natural numbers; ids and times have no upper bound, as in Python; times are in seconds. The
-- points of a role are integers, and Groups/Points has the column of 32 bits that stores them. The
-- eviction loop of the cache goes down the list of its entries.
--
-- Not modelled: the public registration of prospects and the submission of profiles with photos,
-- highest_role and the permission check, which nothing calls, the list, history and statistics
-- queries, the preview of a transfer, the correction of a mail's recipient, tracing and logging,
-- the SQL engine itself, and the parts of the program around these: routes, templates, the clients
-- of the authentication service and of other services, the limiter in memory, admin accounts,
-- search and the mobile card. Applications name groups and roles without foreign keys, and the
-- deletions of groups and roles do not look at them, nor does their model. In the outbox the
-- handler of an IntegrityError on insert is left out, since inserts do not overlap here.
pub mod Prelude
pub mod Text
pub mod Semester
pub mod Phone
pub mod RateLimit
pub mod Exec
pub mod Volunteers
pub mod Cache
pub mod Auth
pub mod RoleAssignments
pub mod Courses
pub mod Groups
pub mod EmailDelivery
pub mod EmailOutbox
pub mod Applications
pub mod Examples
