-- ===== src/Auth/Repository.antt =====
-- app/auth/models.py and app/auth/repository.py: the accounts and the sessions in the database. The
-- clock of the database is an argument, in seconds; a UUID is a text.
use kvarteret_personal.Prelude.{
  ℕ, Bool, not, ◌&&◌, ◌||◌, Option, none, some, false, List, [], ◌∷◌, ◌++◌, String, ltb, ◌==◌,
  str_eq, find_first, filter_by, update_where, is_some, if◌then◌else◌,
}
use kvarteret_personal.Text.{lower}
use kvarteret_personal.Exec.{ok, err, Result}
use kvarteret_personal.Auth.Roles.{UserRole, to_role}

-- A row of user_accounts, as far as it is read or written here.
pub record AccountRow : Type 0 where
  pub id : ℕ
  pub auth_user_id : String
  pub username : String
  pub email : String
  pub display_name : Option String
  pub role : String
  pub is_legacy_account : Bool
  pub last_login : Option ℕ
  pub onboarding_status : String
  pub activated_at : Option ℕ

-- A row of web_sessions.
pub record SessionRow : Type 0 where
  pub session_id : String
  pub auth_user_id : String
  pub user_account_id : Option ℕ
  pub impersonator_auth_user_id : Option String
  pub impersonator_user_account_id : Option ℕ
  pub expires_at : ℕ
  pub ip_address : Option String
  pub user_agent : Option String

pub record AuthDb : Type 0 where
  pub accounts : List AccountRow
  pub sessions : List SessionRow

pub record UserAccount : Type 0 where
  pub id : ℕ
  pub auth_user_id : String
  pub username : String
  pub email : String
  pub display_name : Option String
  pub role : UserRole
  pub last_login : Option ℕ

pub record AuthenticatedUser : Type 0 where
  pub auth_user_id : String
  pub user_account_id : Option ℕ
  pub username : String
  pub email : String
  pub display_name : Option String
  pub role : UserRole
  pub is_impersonated : Bool

pub record WebSession : Type 0 where
  pub session_id : String
  pub auth_user_id : String
  pub user_account_id : Option ℕ
  pub expires_at : ℕ
  pub impersonator_user : Option AuthenticatedUser

-- A ValueError of `UserRole(…)`, and a LoginError.
pub data AuthError : Type 0 where
  value_error invalid_credentials gateway_error : AuthError

abbrev pub find_account : Option ℕ → List AccountRow → Option AccountRow
find_account none rows = none
find_account (some id) rows = find_first (λ (a : AccountRow). a.id == id) rows

abbrev pub account_with : AccountRow → Option UserRole → Result AuthError UserAccount
account_with row none = err value_error
account_with row (some role) = ok (record {
  id = row.id;
  auth_user_id = row.auth_user_id;
  username = row.username;
  email = row.email;
  display_name = row.display_name;
  role = role;
  last_login = row.last_login;
})

-- `_map_user_account`
unfoldable pub map_user_account : AccountRow → Result AuthError UserAccount
map_user_account row = account_with row (to_role row.role)

-- Is the account one with which one may log in?
abbrev pub may_log_in : Bool → AccountRow → Bool
may_log_in legacy_login_enabled a = legacy_login_enabled || not a.is_legacy_account

-- The statement of get_user_account_by_identifier.
unfoldable pub account_by_identifier : Bool → String → List AccountRow → Option AccountRow
account_by_identifier legacy_login_enabled identifier = find_first (λ (a : AccountRow).
    (str_eq (lower a.username) (lower identifier) || str_eq (lower a.email) (lower identifier))
    && may_log_in legacy_login_enabled a)

abbrev pub found_account : Result AuthError UserAccount → Result AuthError (Option UserAccount)
found_account (err e) = err e
found_account (ok account) = ok (some account)

unfoldable pub map_found : Option AccountRow → Result AuthError (Option UserAccount)
unfolding map_user_account
map_found none = ok none
map_found (some row) = found_account (map_user_account row)

unfoldable pub get_user_account_by_identifier :
    Bool → String → AuthDb → Result AuthError (Option UserAccount)
unfolding account_by_identifier map_found
get_user_account_by_identifier legacy_login_enabled identifier db =
    map_found (account_by_identifier legacy_login_enabled identifier db.accounts)

unfoldable pub mark_onboarding_complete : ℕ → String → AuthDb → AuthDb
mark_onboarding_complete now auth_user_id db = record db {
  accounts =
      update_where (λ (a : AccountRow). str_eq a.auth_user_id auth_user_id)
        (λ (a : AccountRow). record a {
          onboarding_status = "active";
          activated_at = if is_some a.activated_at then a.activated_at else some now;
        })
        db.accounts;
}

unfoldable pub create_session : SessionRow → AuthDb → WebSession × AuthDb
create_session row db = (
  record {
    session_id = row.session_id;
    auth_user_id = row.auth_user_id;
    user_account_id = row.user_account_id;
    expires_at = row.expires_at;
    impersonator_user = none;
  },
  record db { sessions = db.sessions ++ row ∷ [] },
)

-- Whether an outer join found an account that may log in. NULL IS FALSE is not true.
abbrev pub joined_may_log_in : Bool → Option AccountRow → Bool
joined_may_log_in legacy_login_enabled none = legacy_login_enabled
joined_may_log_in legacy_login_enabled (some a) = may_log_in legacy_login_enabled a

-- The conditions that are added where legacy accounts may not log in.
abbrev pub session_may_log_in : Bool → List AccountRow → SessionRow → Bool
session_may_log_in legacy_login_enabled accounts r =
    joined_may_log_in legacy_login_enabled (find_account r.user_account_id accounts)
    && (not (is_some r.impersonator_user_account_id)
        || joined_may_log_in legacy_login_enabled
            (find_account r.impersonator_user_account_id accounts))

-- The statement of load_authenticated_user_for_session.
unfoldable pub find_session : Bool → ℕ → String → AuthDb → Option SessionRow
find_session legacy_login_enabled now session_id db =
    find_first
      (λ (r : SessionRow).
        str_eq r.session_id session_id
        && ltb now r.expires_at
        && session_may_log_in legacy_login_enabled db.accounts r)
      db.sessions

-- The impersonator's account; a join that found none has no role.
abbrev pub to_impersonator :
    Option ℕ
    → Option String
    → Option AccountRow
    → Result AuthError (Option (Option AuthenticatedUser))
to_impersonator none auth_id a = ok (some none)
to_impersonator (some id) auth_id none = ok (some none)
to_impersonator (some id) none (some a) = ok none
to_impersonator (some id) (some auth_id) (some a) = elim (to_role a.role) [
  | none ↦ err value_error
  | some role ↦ ok (
      some (
        some (record {
          auth_user_id = auth_id;
          user_account_id = some id;
          username = a.username;
          email = a.email;
          display_name = a.display_name;
          role = role;
          is_impersonated = false;
        })))
]

abbrev pub to_web_session : SessionRow → Option AuthenticatedUser → WebSession
to_web_session r impersonator = record {
  session_id = r.session_id;
  auth_user_id = r.auth_user_id;
  user_account_id = r.user_account_id;
  expires_at = r.expires_at;
  impersonator_user = impersonator;
}

abbrev pub user_with :
    SessionRow
    → AccountRow
    → Option AuthenticatedUser
    → Option UserRole
    → Result AuthError AuthenticatedUser
user_with r a impersonator none = err value_error
user_with r a impersonator (some role) = ok (record {
  auth_user_id = r.auth_user_id;
  user_account_id = r.user_account_id;
  username = a.username;
  email = a.email;
  display_name = a.display_name;
  role = role;
  is_impersonated = is_some impersonator;
})

-- The user of a session; a join that found no account has a role of NULL.
abbrev pub to_user :
    SessionRow → Option AccountRow → Option AuthenticatedUser → Result AuthError AuthenticatedUser
to_user r none impersonator = err value_error
to_user r (some a) impersonator = user_with r a impersonator (to_role a.role)

abbrev pub Context : Type 0
Context = WebSession × AuthenticatedUser

abbrev pub with_user :
    SessionRow
    → Option AuthenticatedUser
    → Result AuthError AuthenticatedUser
    → Result AuthError (Option Context)
with_user r impersonator (err e) = err e
with_user r impersonator (ok user) = ok (some (to_web_session r impersonator, user))

abbrev pub with_impersonator :
    SessionRow
    → List AccountRow
    → Result AuthError (Option (Option AuthenticatedUser))
    → Result AuthError (Option Context)
with_impersonator r accounts (err e) = err e
with_impersonator r accounts (ok none) = ok none
with_impersonator r accounts (ok (some impersonator)) =
    with_user r impersonator (to_user r (find_account r.user_account_id accounts) impersonator)

-- The rows that the statement has found, if any.
abbrev pub to_context : List AccountRow → Option SessionRow → Result AuthError (Option Context)
to_context accounts none = ok none
to_context accounts (some r) =
    if is_some r.user_account_id
    then with_impersonator r accounts (
        to_impersonator r.impersonator_user_account_id r.impersonator_auth_user_id
          (find_account r.impersonator_user_account_id accounts))
    else ok none

unfoldable pub load_authenticated_user_for_session :
    Bool → ℕ → String → AuthDb → Result AuthError (Option Context)
unfolding find_session
load_authenticated_user_for_session legacy_login_enabled now session_id db =
    to_context db.accounts (find_session legacy_login_enabled now session_id db)

unfoldable pub delete_session : String → AuthDb → AuthDb
delete_session session_id db = record db {
  sessions = filter_by (λ (r : SessionRow). not (str_eq r.session_id session_id)) db.sessions;
}
