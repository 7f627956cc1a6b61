-- ===== src/Auth/SessionStore.antt =====
-- app/auth/session_store.py: the sessions of the database behind a cache of the process. A call has
-- one instant of each clock, the monotonic one of the cache and that of the wall, which the database
-- shares; both in seconds. A load is one step: no other call of the process runs between its reading
-- of the row and its writing to the cache. The token of a new session is an argument.
use kvarteret_personal.Prelude.{
  ℕ, ◌+◌, ◌*◌, Bool, Option, none, some, List, [], ◌∷◌, String, leb, if◌then◌else◌, String_key,
}
use kvarteret_personal.Exec.{Exec, ok, err, Result}
use kvarteret_personal.Cache.{TtlCache, init_cache, get, set, pop}
use kvarteret_personal.Auth.Repository.{
  SessionRow, AuthDb, WebSession, AuthError, Context, create_session as insert_session,
  load_authenticated_user_for_session, delete_session as delete_row,
}

pub record AuthSettings : Type 0 where
  pub session_ttl_hours : ℕ
  pub session_cache_ttl_seconds : ℕ
  pub legacy_login_enabled : Bool

pub record Clock : Type 0 where
  pub monotonic : ℕ
  pub utc : ℕ

-- The database, and the store's cache of CachedSessions by session id.
pub record SessionStore : Type 0 where
  pub db : AuthDb
  pub cache : TtlCache String Context

-- The keyword arguments of create_session, and the token.
pub record NewSession : Type 0 where
  pub session_id : String
  pub auth_user_id : String
  pub user_account_id : Option ℕ
  pub impersonator_auth_user_id : Option String
  pub impersonator_user_account_id : Option ℕ
  pub ip_address : Option String
  pub user_agent : Option String

-- `__init__`
unfoldable pub init_store : AuthSettings → AuthDb → SessionStore
unfolding init_cache
init_store settings db = record {
  db = db;
  cache = init_cache settings.session_cache_ttl_seconds 2048;
}

abbrev pub to_row : AuthSettings → Clock → NewSession → SessionRow
to_row settings clock n = record {
  session_id = n.session_id;
  auth_user_id = n.auth_user_id;
  user_account_id = n.user_account_id;
  impersonator_auth_user_id = n.impersonator_auth_user_id;
  impersonator_user_account_id = n.impersonator_user_account_id;
  expires_at = clock.utc + settings.session_ttl_hours * 3600;
  ip_address = n.ip_address;
  user_agent = n.user_agent;
}

unfoldable pub create_session :
    AuthSettings → Clock → NewSession → SessionStore → WebSession × SessionStore
unfolding insert_session pop
create_session settings clock n s =
    let (session, db) = insert_session (to_row settings clock n) s.db in
    (session, record { db = db; cache = pop n.session_id s.cache })

-- What follows the repository's answer.
abbrev pub store_context :
    Clock
    → String
    → Result AuthError (Option Context)
    → Exec SessionStore AuthError (Option Context)
store_context clock session_id (err e) s = (err e, s)
store_context clock session_id (ok none) s = (ok none, record s { cache = pop session_id s.cache })
store_context clock session_id (ok (some context)) s =
    (ok (some context), record s { cache = set clock.monotonic session_id context s.cache })

unfoldable pub reload : AuthSettings → Clock → String → Exec SessionStore AuthError (Option Context)
unfolding load_authenticated_user_for_session pop set
reload settings clock session_id s =
    store_context clock session_id
      (load_authenticated_user_for_session settings.legacy_login_enabled clock.utc session_id s.db)
      s

-- What follows the cache's answer.
unfoldable pub use_cached :
    AuthSettings → Clock → String → Option Context → Exec SessionStore AuthError (Option Context)
unfolding reload pop
use_cached settings clock session_id none s = reload settings clock session_id s
use_cached settings clock session_id (some cached) s =
    if leb cached.0.expires_at clock.utc
    then reload settings clock session_id (record s { cache = pop session_id s.cache })
    else (ok (some cached), s)

unfoldable pub load_authenticated_user :
    AuthSettings → Clock → String → Exec SessionStore AuthError (Option Context)
unfolding use_cached get
load_authenticated_user settings clock session_id s =
    let (cached, cache) = get clock.monotonic session_id s.cache in
    use_cached settings clock session_id cached (record s { cache = cache })

-- `delete_session` up to its await: the session is dropped from the cache. Other calls of the process
-- may run before the deletion of the row, which the request commits at its end.
unfoldable pub begin_delete_session : String → SessionStore → SessionStore
unfolding pop
begin_delete_session session_id s = record s { cache = pop session_id s.cache }

-- The deletion of the row, when it is committed.
unfoldable pub commit_delete_session : String → SessionStore → SessionStore
unfolding delete_row
commit_delete_session session_id s = record s { db = delete_row session_id s.db }

unfoldable pub invalidate_session_cache : String → SessionStore → SessionStore
unfolding pop
invalidate_session_cache session_id s = record s { cache = pop session_id s.cache }

-- What happens to a store: its operations, a deletion in its two steps, and what other processes
-- write to the database.
pub data SessionCall : Type 0 where
  creates : NewSession → SessionCall
  loads begins_deletion commits_deletion invalidates : String → SessionCall
  elsewhere : (AuthDb → AuthDb) → SessionCall

unfoldable pub session_step : AuthSettings → Clock → SessionCall → SessionStore → SessionStore
unfolding create_session load_authenticated_user begin_delete_session commit_delete_session
    invalidate_session_cache
session_step settings clock (creates n) s = (create_session settings clock n s).1
session_step settings clock (loads id) s = (load_authenticated_user settings clock id s).1
session_step settings clock (begins_deletion id) s = begin_delete_session id s
session_step settings clock (commits_deletion id) s = commit_delete_session id s
session_step settings clock (invalidates id) s = invalidate_session_cache id s
session_step settings clock (elsewhere f) s = record s { db = f s.db }

unfoldable pub session_run : AuthSettings → List (Clock × SessionCall) → SessionStore → SessionStore
unfolding session_step
session_run settings [] s = s
session_run settings ((clock, call) ∷ calls) s =
    session_run settings calls (session_step settings clock call s)
