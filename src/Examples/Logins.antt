-- ===== src/Examples/Logins.antt =====
-- The theorems on roles, sessions and the login at one account.
use kvarteret_personal.Prelude.{
  ℕ, ◌+◌, ◌≡◌, refl, true, false, none, some, List, [], ◌∷◌, arith, String_key,
}
use kvarteret_personal.Text.{strip, lower, lstrip, rstrip}
use kvarteret_personal.Exec.{ok, ◌>>=◌, gets, or_raise, modify}
use kvarteret_personal.Cache.{
  init_cache, delete_entry, assign_entry, move_to_end, evict, get, set, pop,
}
use kvarteret_personal.Auth.Roles.{admin}
use kvarteret_personal.Auth.Repository.{
  AccountRow, SessionRow, AuthDb, Context, account_by_identifier, map_user_account, map_found,
  get_user_account_by_identifier, mark_onboarding_complete, create_session as insert_session,
  find_session, load_authenticated_user_for_session,
}
use kvarteret_personal.Auth.SessionStore.{
  AuthSettings, Clock, SessionStore, SessionCall, loads, init_store, create_session, reload,
  use_cached, load_authenticated_user, begin_delete_session, commit_delete_session, session_step,
  session_run,
}
use kvarteret_personal.Auth.Loaded.{IsLoaded}
use kvarteret_personal.Auth.Provenance.{Occurs, load-IsLoaded}
use kvarteret_personal.Auth.Revocation.{delete_session_final}
use kvarteret_personal.Auth.Staleness.{revoked_elsewhere}
use kvarteret_personal.Auth.Login.{
  SignIn, LoginRequest, LoginResult, returns, complete_onboarding, open_session, login,
}
use kvarteret_personal.Auth.Login.Session.{login-load}

abbrev settings : AuthSettings
settings = record {
  session_ttl_hours = 12;
  session_cache_ttl_seconds = 60;
  legacy_login_enabled = false;
}

abbrev clock_at : ℕ → Clock
clock_at time = record { monotonic = time; utc = 100000 + time }

abbrev kari : AccountRow
kari = record {
  id = 5;
  auth_user_id = "u5";
  username = "kari";
  email = "kari@kvarteret.no";
  display_name = some "Kari";
  role = "Admin";
  is_legacy_account = false;
  last_login = none;
  onboarding_status = "invited";
  activated_at = none;
}

abbrev session_row : SessionRow
session_row = record {
  session_id = "s1";
  auth_user_id = "u5";
  user_account_id = some 5;
  impersonator_auth_user_id = none;
  impersonator_user_account_id = none;
  expires_at = 100500;
  ip_address = none;
  user_agent = none;
}

abbrev one_session : AuthDb
one_session = record { accounts = kari ∷ []; sessions = session_row ∷ [] }

abbrev no_session : AuthDb
no_session = record { accounts = kari ∷ []; sessions = [] }

abbrev one_load : List (Clock × SessionCall)
one_load = (clock_at 1, loads "s1") ∷ []

abbrev kari_loaded : Context
kari_loaded = (
  record {
    session_id = "s1";
    auth_user_id = "u5";
    user_account_id = some 5;
    expires_at = 100500;
    impersonator_user = none;
  },
  record {
    auth_user_id = "u5";
    user_account_id = some 5;
    username = "kari";
    email = "kari@kvarteret.no";
    display_name = some "Kari";
    role = admin;
    is_impersonated = false;
  },
)

load-IsLoaded_example :
    IsLoaded false
      (Occurs settings one_load (init_store settings one_session))
      (clock_at 2).utc
      "s1"
      kari_loaded
unfolding init_store init_cache session_run session_step load_authenticated_user use_cached reload
    load_authenticated_user_for_session find_session get set pop delete_entry assign_entry
    move_to_end evict
load-IsLoaded_example =
    load-IsLoaded settings one_load one_session (clock_at 2) "s1" kari_loaded refl

-- In between, the process answers another session's request.
abbrev other_load : List (Clock × SessionCall)
other_load = (clock_at 1, loads "s2") ∷ []

delete_session_final_example : ¬ (
    (load_authenticated_user settings (clock_at 3) "s1" (
      session_run settings one_load (
        commit_delete_session "s1" (
          session_run settings other_load
            (begin_delete_session "s1" (init_store settings one_session)))))).0
    ≡ ok (some kari_loaded))
delete_session_final_example =
    delete_session_final settings "s1" (init_store settings one_session) other_load one_load
      (clock_at 3) kari_loaded (refl, tt) (tt, tt)

revoked_elsewhere_example : ¬ (
    (load_authenticated_user settings (clock_at 70) "s1" (
      session_run settings one_load
        (record (session_run settings one_load (init_store settings one_session)) {
          db = no_session;
        }))).0
    ≡ ok (some kari_loaded))
revoked_elsewhere_example =
    revoked_elsewhere settings one_session one_load one_load "s1" 5 no_session (clock_at 70)
      kari_loaded (omega arith, tt) tt (tt, tt) (omega arith)

abbrev accepts_secret : SignIn
accepts_secret email password = ok (some "u5")

abbrev kari_request : LoginRequest
kari_request = record {
  identifier = " Kari";
  password = "secret";
  ip_address = none;
  user_agent = none;
  token = "t1";
}

abbrev kari_result : LoginResult
kari_result = record {
  session = record {
    session_id = "t1";
    auth_user_id = "u5";
    user_account_id = some 5;
    expires_at = 143201;
    impersonator_user = none;
  };
  user = kari_loaded.1;
}

abbrev kari_row : SessionRow
kari_row = record session_row { session_id = "t1"; expires_at = 143201 }

-- The store behind the login.
abbrev kari_store : SessionStore
kari_store = record {
  db = record {
    accounts = record kari { onboarding_status = "active"; activated_at = some 100001 } ∷ [];
    sessions = session_row ∷ kari_row ∷ [];
  };
  cache = init_cache 60 2048;
}

login-load_example :
    (a : AccountRow) × (account_by_identifier false (lower (strip " Kari")) (kari ∷ []) ≡ some a)
    × (accepts_secret a.email "secret" ≡ ok (some "u5"))
    × ((load_authenticated_user settings (clock_at 9) "t1" kari_store).0
        ≡ ok (some (kari_result.session, kari_result.user)))
unfolding init_store init_cache login returns get_user_account_by_identifier account_by_identifier
    map_found map_user_account mark_onboarding_complete complete_onboarding open_session
    create_session insert_session pop delete_entry strip lower lstrip rstrip ◌>>=◌ gets or_raise
    modify
login-load_example =
    login-load settings accepts_secret true (clock_at 1) (clock_at 9) kari_request
      (init_store settings one_session) kari_store kari_result refl (refl, tt) (tt, tt)
      (omega arith)
