-- ===== src/Auth/Login.antt =====
-- `login` of app/auth/login_service.py. The authentication service behind the gateway is the argument
-- `sign_in`: for an email and a password it answers the id of the user, or none, or it fails.
-- Whether the onboarding status can be written is an argument too; the code goes on if it cannot.
pub mod Accounts
pub mod Passed
pub mod Session
use kvarteret_personal.Prelude.{ℕ, Bool, true, false, Option, none, some, String, if◌then◌else◌}
use kvarteret_personal.Text.{strip, lower}
use kvarteret_personal.Exec.{Exec, ok, err, Result, pure, gets, modify, or_raise, ◌>>=◌, ◌>>◌}
use kvarteret_personal.Auth.Repository.{
  AuthDb, AuthError, UserAccount, AuthenticatedUser, WebSession, invalid_credentials,
  get_user_account_by_identifier, mark_onboarding_complete,
}
use kvarteret_personal.Auth.SessionStore.{
  AuthSettings, Clock, SessionStore, NewSession, create_session,
}

abbrev pub SignIn : Type 0
SignIn = String → String → Result AuthError (Option String)

pub record LoginResult : Type 0 where
  pub session : WebSession
  pub user : AuthenticatedUser

-- The keyword arguments of login, and the token of the new session.
pub record LoginRequest : Type 0 where
  pub identifier : String
  pub password : String
  pub ip_address : Option String
  pub user_agent : Option String
  pub token : String

-- A call that returns or fails without a write.
unfoldable pub returns : {A : Type 0} → Result AuthError A → Exec SessionStore AuthError A
returns r s = (r, s)

abbrev pub new_session : LoginRequest → UserAccount → String → NewSession
new_session r account auth_user_id = record {
  session_id = r.token;
  auth_user_id = auth_user_id;
  user_account_id = some account.id;
  impersonator_auth_user_id = none;
  impersonator_user_account_id = none;
  ip_address = r.ip_address;
  user_agent = r.user_agent;
}

abbrev pub to_login_result : UserAccount → String → WebSession → LoginResult
to_login_result account auth_user_id session = record {
  session = session;
  user = record {
    auth_user_id = auth_user_id;
    user_account_id = some account.id;
    username = account.username;
    email = account.email;
    display_name = account.display_name;
    role = account.role;
    is_impersonated = false;
  };
}

unfoldable pub complete_onboarding : Clock → Bool → String → SessionStore → SessionStore
unfolding mark_onboarding_complete
complete_onboarding clock writable auth_user_id s =
    if writable then record s { db = mark_onboarding_complete clock.utc auth_user_id s.db } else s

unfoldable pub open_session :
    AuthSettings
    → Clock
    → LoginRequest
    → UserAccount
    → String
    → Exec SessionStore AuthError LoginResult
unfolding create_session
open_session settings clock r account auth_user_id s =
    let (session, s') = create_session settings clock (new_session r account auth_user_id) s in
    (ok (to_login_result account auth_user_id session), s')

unfoldable pub login :
    AuthSettings → SignIn → Bool → Clock → LoginRequest → Exec SessionStore AuthError LoginResult
unfolding get_user_account_by_identifier complete_onboarding open_session returns
login settings sign_in writable clock r = do
  looked_up ← gets (λ s.
      get_user_account_by_identifier settings.legacy_login_enabled (lower (strip r.identifier))
        s.db)
  found ← returns looked_up
  account ← or_raise found invalid_credentials
  answer ← returns (sign_in account.email r.password)
  auth_user_id ← or_raise answer invalid_credentials
  modify (complete_onboarding clock writable auth_user_id)
  open_session settings clock r account auth_user_id
