-- ===== src/Auth/Login/Session.antt =====
-- The session that `login` of app/auth/login_service.py opens, as app/auth/session_store.py loads it.
use kvarteret_personal.Prelude.{
  ℕ, ◌+◌, ◌*◌, ◌<◌, ◌≡◌, refl, ap, sym, subst, ◌∙◌, inl, inr, Bool, true, false, ◌&&◌, Option, none,
  some, List, [], ◌∷◌, ◌++◌, String, ltb, str_eq, eq_iff, arith, All, All-imp, not, ◌||◌,
  Bool-cases, find_first, found-passes, String_key,
}
use kvarteret_personal.Text.{strip, lower}
use kvarteret_personal.Exec.{ok, err, Result}
use kvarteret_personal.Cache.{CacheEntry, TtlCache, find_entry, delete_entry, get, pop}
use kvarteret_personal.Auth.Roles.{UserRole, to_role}
use kvarteret_personal.Auth.Repository.{
  AccountRow, SessionRow, AuthDb, AuthError, UserAccount, Context, account_by_identifier,
  find_account, may_log_in, session_may_log_in, find_session, create_session as insert_session,
  to_context, to_web_session, load_authenticated_user_for_session,
}
use kvarteret_personal.Auth.SessionStore.{
  AuthSettings, Clock, SessionStore, create_session, load_authenticated_user, use_cached, reload,
  to_row,
}
use kvarteret_personal.Auth.Loads.{store_returns}
use kvarteret_personal.Auth.Revocation.{Absent}
use kvarteret_personal.Auth.Login.{
  SignIn, LoginResult, LoginRequest, new_session, to_login_result, complete_onboarding,
  open_session, login,
}
use kvarteret_personal.Auth.Login.Accounts.{
  UniqueAccounts, account_row, found_by_id, onboarding_account, onboarding_sessions,
}
use kvarteret_personal.Auth.Login.Passed.{login-Passed}

-- A row with a new id, behind the others, is the one that is found.
found_new :
    (p : SessionRow → Bool) (rows : List SessionRow) (r : SessionRow)
    → All (λ (x : SessionRow). p x ≡ false) rows
    → p r ≡ true
    → find_first p (rows ++ r ∷ []) ≡ some r
found_new p [] r a h = rw h refl
found_new p (x ∷ rows) r a h = rw a.0 (found_new p rows r a.1 h)

-- The repository finds the new row, and reads the user from the account.
new_row_loaded :
    (legacy : Bool) (now : ℕ) (db : AuthDb) (rows : List SessionRow) (row : SessionRow)
    (b : AccountRow) (id : ℕ) (role : UserRole)
    → db.sessions ≡ rows ++ row ∷ []
    → All (λ (x : SessionRow). str_eq x.session_id row.session_id ≡ false) rows
    → ltb now row.expires_at ≡ true
    → row.user_account_id ≡ some id
    → row.impersonator_user_account_id ≡ none
    → find_account (some id) db.accounts ≡ some b
    → may_log_in legacy b ≡ true
    → to_role b.role ≡ some role
    → load_authenticated_user_for_session legacy now row.session_id db
      ≡ ok (
          some (
            to_web_session row none,
            record {
              auth_user_id = row.auth_user_id;
              user_account_id = row.user_account_id;
              username = b.username;
              email = b.email;
              display_name = b.display_name;
              role = role;
              is_impersonated = false;
            },
          ))
unfolding load_authenticated_user_for_session find_session
new_row_loaded legacy now db rows row b id role at absent fresh user alone account may known =
    let test = λ (r : SessionRow).
      str_eq r.session_id row.session_id
      && ltb now r.expires_at
      && session_may_log_in legacy db.accounts r in
    let passes : test row ≡ true =
      rw ((eq_iff row.session_id row.session_id).1 refl, fresh, user, alone, account, may) refl in
    let found = found_new test rows row (All-imp _ _ rows (λ x ne. rw ne refl) absent) passes in
    ap (to_context db.accounts) (ap (find_first test) at ∙ found)
    ∙ rw (user, alone, account, known) refl

popped_missing :
    (k : String) (l : List (CacheEntry String Context)) → find_entry k (delete_entry k l) ≡ none
unfolding delete_entry
popped_missing k [] = refl
popped_missing k (e ∷ l) = elim (Bool-cases (str_eq e.key k)) [
  | inl same ↦ rw same (popped_missing k l)
  | inr other ↦ rw (other, other) (popped_missing k l)
]

get_popped : (now : ℕ) (k : String) (c : TtlCache String Context) → (get now k (pop k c)).0 ≡ none
unfolding get pop
get_popped now k c = rw (get, popped_missing k c.entries) refl

-- A load that the cache knows nothing of asks the repository.
load_uncached :
    (settings : AuthSettings) (clock : Clock) (id : String) (s : SessionStore)
    (answer : Result AuthError (Option Context))
    → (get clock.monotonic id s.cache).0 ≡ none
    → load_authenticated_user_for_session settings.legacy_login_enabled clock.utc id s.db ≡ answer
    → (load_authenticated_user settings clock id s).0 ≡ answer
unfolding load_authenticated_user use_cached reload
load_uncached settings clock id s answer miss h =
    ap
      (λ cached.
        (use_cached settings clock id cached
          (record s { cache = (get clock.monotonic id s.cache).1 })).0)
      miss
    ∙ sym (store_returns clock id _ _)
    ∙ h

-- The store behind a new session's row.
abbrev with_row : SessionRow → SessionStore → SessionStore
with_row row s = record {
  db = record s.db { sessions = s.db.sessions ++ row ∷ [] };
  cache = pop row.session_id s.cache;
}

abbrev user_of :
    SessionRow → UserAccount → String → String → Option String → Result AuthError (Option Context)
user_of row account username email display_name = ok (
    some (
      to_web_session row none,
      record {
        auth_user_id = row.auth_user_id;
        user_account_id = row.user_account_id;
        username = username;
        email = email;
        display_name = display_name;
        role = account.role;
        is_impersonated = false;
      },
    ))

-- The user of the new row, read from an account with the same names.
same_user :
    (row : SessionRow) (account : UserAccount) (b : AccountRow)
    → b.username ≡ account.username
    → b.email ≡ account.email
    → b.display_name ≡ account.display_name
    → user_of row account b.username b.email b.display_name
      ≡ user_of row account account.username account.email account.display_name
same_user row account b name email display = λ i. user_of row account (name i) (email i) (display i)

abbrev result_or : LoginResult → Result AuthError LoginResult → LoginResult
result_or d (ok x) = x
result_or d (err e) = d

opened_parts :
    (settings : AuthSettings) (clock : Clock) (r : LoginRequest) (account : UserAccount)
    (auth_user_id : String) (s t : SessionStore) (result : LoginResult)
    → open_session settings clock r account auth_user_id s ≡ (ok result, t)
    → (to_login_result account auth_user_id
          (to_web_session (to_row settings clock (new_session r account auth_user_id)) none)
        ≡ result)
      × (with_row (to_row settings clock (new_session r account auth_user_id)) s ≡ t)
unfolding open_session create_session insert_session
opened_parts settings clock r account auth_user_id s t result h =
    (ap (λ x. result_or result x.0) h, ap (λ x. x.1) h)

-- A login that returns has found an account by the identifier, and the authentication service has
-- accepted the password for the account's email. Until the new session expires, the first load of
-- it gives the session and the user that the login returned. The token must be new, the ids of
-- accounts are unique.
pub login-load :
    (settings : AuthSettings) (sign_in : SignIn) (writable : Bool) (clock later : Clock)
    (r : LoginRequest) (s t : SessionStore) (result : LoginResult)
    → login settings sign_in writable clock r s ≡ (ok result, t)
    → Absent r.token s.db
    → UniqueAccounts s.db.accounts
    → later.utc < clock.utc + settings.session_ttl_hours * 3600
    → (a : AccountRow) × (account_by_identifier settings.legacy_login_enabled
          (lower (strip r.identifier))
          s.db.accounts
        ≡ some a)
      × (sign_in a.email r.password ≡ ok (some result.user.auth_user_id))
      × ((load_authenticated_user settings later r.token t).0
          ≡ ok (some (result.session, result.user)))
unfolding account_by_identifier
login-load settings sign_in writable clock later r s t result h absent unique alive =
    let p = login-Passed settings sign_in writable clock r s t result h in
    let legacy = settings.legacy_login_enabled in
    let (a, found, own) =
      account_row legacy (lower (strip r.identifier)) s.db p.account p.looked_up in
    let s1 = complete_onboarding clock writable p.auth_user_id s in
    let row = to_row settings clock (new_session r p.account p.auth_user_id) in
    let (b, account, kept) =
      onboarding_account clock writable p.auth_user_id s a
        (found_by_id _ s.db.accounts a unique found) in
    let name = kept.1 ∙ sym own.2 in
    let email = kept.2 ∙ sym own.3 in
    let display = kept.3 ∙ sym own.4 in
    let (is_result, is_store) =
      opened_parts settings clock r p.account p.auth_user_id s1 t result p.opened in
    let legal : may_log_in legacy a ≡ true = ground (
      arith,
      found-passes
          (λ (a : AccountRow).
            (str_eq (lower a.username) (lower (lower (strip r.identifier)))
              || str_eq (lower a.email) (lower (lower (strip r.identifier))))
            && may_log_in legacy a)
          s.db.accounts a found,
    ) in
    let answer =
      new_row_loaded legacy later.utc (with_row row s1).db s.db.sessions row b a.id p.account.role
        (ap (λ l. l ++ row ∷ []) (onboarding_sessions clock writable p.auth_user_id s)) absent
        (ground arith) (ap some own.1) refl account (ap (λ l. legacy || not l) kept.4 ∙ legal)
        (ap to_role kept.0 ∙ own.0) in
    (
      a,
      found,
      ap (λ e. sign_in e r.password) (sym own.3)
          ∙ p.signed_in
          ∙ ap (λ (x : LoginResult). ok (some x.user.auth_user_id)) is_result,
      load_uncached settings later r.token t _
          (subst (λ (x : SessionStore). (get later.monotonic r.token x.cache).0 ≡ none) is_store
            (get_popped later.monotonic r.token s1.cache))
          (ap
              (λ (x : SessionStore).
                load_authenticated_user_for_session legacy later.utc r.token x.db)
              (sym is_store)
            ∙ answer
            ∙ same_user row p.account b name email display
            ∙ ap (λ (x : LoginResult). ok (some (x.session, x.user))) is_result),
    )
