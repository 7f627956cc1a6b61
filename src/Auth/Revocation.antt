-- ===== src/Auth/Revocation.antt =====
-- Sessions that expired or were deleted, against app/auth/session_store.py: its cache and its loads.
use kvarteret_personal.Prelude.{
  ℕ, ◌≤◌, ◌≡◌, sym, subst, inl, inr, Bool, true, false, ◌&&◌, some, List, [], ◌∷◌, String, ltb,
  str_eq, eq_iff, String_key, arith, All, All-filter_by, All-append, All-imp, All-find_first,
  found-passes, filter-All,
}
use kvarteret_personal.Exec.{ok}
use kvarteret_personal.Cache.{CacheEntry, pop, delete_entry}
use kvarteret_personal.Cache.Entries.{pop-All, find-All, find-key}
use kvarteret_personal.Auth.Repository.{
  SessionRow, AuthDb, Context, load_authenticated_user_for_session, find_session,
  session_may_log_in, create_session as insert_session, delete_session as delete_row,
}
use kvarteret_personal.Auth.SessionStore.{
  AuthSettings, Clock, SessionStore, SessionCall, creates, loads, begins_deletion, commits_deletion,
  invalidates, elsewhere, create_session, load_authenticated_user, begin_delete_session,
  commit_delete_session, invalidate_session_cache, session_step, session_run,
}
use kvarteret_personal.Auth.Loaded.{loaded_row}
use kvarteret_personal.Auth.Loads.{load-All, load_returns, load-Settled}

-- No row has the session's id.
abbrev pub Absent : String → AuthDb → Type 0
Absent id db = All (λ (r : SessionRow). str_eq r.session_id id ≡ false) db.sessions

-- An entry of the session has expired at this time.
abbrev pub ExpiresBy : String → ℕ → CacheEntry String Context → Type 0
ExpiresBy id deadline e = str_eq e.key id ≡ true → e.expires_at ≤ deadline

-- The call does not bring the session back.
abbrev pub KeepsAbsent : String → SessionCall → Type 0
KeepsAbsent id (creates n) = str_eq n.session_id id ≡ false
KeepsAbsent id (elsewhere f) = (db : AuthDb) → Absent id db → Absent id (f db)
KeepsAbsent id _ = Unit

-- The repository loads no session that has no row.
missing_not_loaded :
    (legacy : Bool) (now : ℕ) (id : String) (db : AuthDb) (c : Context)
    → Absent id db
    → ¬ (load_authenticated_user_for_session legacy now id db ≡ ok (some c))
unfolding find_session
missing_not_loaded legacy now id db c absent = λ h.
    let (r, found) = loaded_row legacy now id db c h in
    let gone =
      All-find_first (λ (r : SessionRow). str_eq r.session_id id ≡ false) _ db.sessions r absent
        found in
    let there =
      found-passes
        (λ (r : SessionRow).
          str_eq r.session_id id && ltb now r.expires_at && session_may_log_in legacy db.accounts r)
        db.sessions r found in
    absurd (ground (arith, gone, there))

-- What keeps a session away: no row, and no entry that lives after the deadline.
pub record IsGone (id : String) (deadline : ℕ) (s : SessionStore) : Type 0 where
  pub absent : Absent id s.db
  pub expires : All (ExpiresBy id deadline) s.cache.entries

load-IsGone :
    (settings : AuthSettings) (clock : Clock) (q id : String) (deadline : ℕ) (s : SessionStore)
    → IsGone id deadline s
    → IsGone id deadline (load_authenticated_user settings clock q s).1
load-IsGone settings clock q id deadline s g = record {
  absent = subst (Absent id) (sym (load-Settled settings clock q s).0) g.absent;
  expires =
      load-All (ExpiresBy id deadline) settings clock q s
        (λ c h same. absurd (
          missing_not_loaded settings.legacy_login_enabled clock.utc id s.db c g.absent (
            subst
              (λ x.
                load_authenticated_user_for_session settings.legacy_login_enabled clock.utc x s.db
                ≡ ok (some c))
              ((eq_iff q id).0 same) h)))
        g.expires;
}

step-IsGone :
    (settings : AuthSettings) (clock : Clock) (call : SessionCall) (id : String) (deadline : ℕ)
    (s : SessionStore)
    → KeepsAbsent id call
    → IsGone id deadline s
    → IsGone id deadline (session_step settings clock call s)
unfolding session_step create_session insert_session begin_delete_session commit_delete_session
    delete_row invalidate_session_cache
step-IsGone settings clock (creates n) id deadline s k g = record {
  absent = All-append _ s.db.sessions _ g.absent (k, tt);
  expires = pop-All (ExpiresBy id deadline) n.session_id s.cache g.expires;
}
step-IsGone settings clock (loads q) id deadline s k g =
    load-IsGone settings clock q id deadline s g
step-IsGone settings clock (commits_deletion q) id deadline s k g = record {
  absent = All-filter_by _ _ s.db.sessions g.absent;
  expires = g.expires;
}
step-IsGone settings clock (begins_deletion q) id deadline s k g = record {
  absent = g.absent;
  expires = pop-All (ExpiresBy id deadline) q s.cache g.expires;
}
step-IsGone settings clock (invalidates q) id deadline s k g = record {
  absent = g.absent;
  expires = pop-All (ExpiresBy id deadline) q s.cache g.expires;
}
step-IsGone settings clock (elsewhere f) id deadline s k g = record {
  absent = k s.db g.absent;
  expires = g.expires;
}

pub run-IsGone :
    (settings : AuthSettings) (calls : List (Clock × SessionCall)) (id : String) (deadline : ℕ)
    (s : SessionStore)
    → All (λ (c : Clock × SessionCall). KeepsAbsent id c.1) calls
    → IsGone id deadline s
    → IsGone id deadline (session_run settings calls s)
unfolding session_run
run-IsGone settings [] id deadline s k g = g
run-IsGone settings ((clock, call) ∷ calls) id deadline s k g =
    run-IsGone settings calls id deadline (session_step settings clock call s) k.1
      (step-IsGone settings clock call id deadline s k.0 g)

pub gone_not_loaded :
    (settings : AuthSettings) (clock : Clock) (id : String) (deadline : ℕ) (s : SessionStore)
    (c : Context)
    → deadline ≤ clock.monotonic
    → IsGone id deadline s
    → ¬ ((load_authenticated_user settings clock id s).0 ≡ ok (some c))
gone_not_loaded settings clock id deadline s c late g = λ h.
    elim (load_returns settings clock id s c h) [
      | inl (e, found, value, lives, fresh) ↦
          let le =
            find-All (ExpiresBy id deadline) id s.cache.entries e g.expires found
              (find-key id s.cache.entries e found) in
          absurd (omega (arith, le, lives, late))
      | inr loaded ↦
          absurd
            (missing_not_loaded settings.legacy_login_enabled clock.utc id s.db c g.absent loaded)
    ]

-- The call is no load of the session.
abbrev pub NoLoadOf : String → SessionCall → Type 0
NoLoadOf id (loads q) = str_eq q id ≡ false
NoLoadOf id _ = Unit

-- The cache holds no entry of the session that is alive.
abbrev Dropped : String → SessionStore → Type 0
Dropped id s = All (ExpiresBy id 0) s.cache.entries

step-Dropped :
    (settings : AuthSettings) (clock : Clock) (call : SessionCall) (id : String) (s : SessionStore)
    → NoLoadOf id call
    → Dropped id s
    → Dropped id (session_step settings clock call s)
unfolding session_step create_session begin_delete_session commit_delete_session
    invalidate_session_cache
step-Dropped settings clock (creates n) id s k d = pop-All (ExpiresBy id 0) n.session_id s.cache d
step-Dropped settings clock (loads q) id s k d =
    load-All (ExpiresBy id 0) settings clock q s (λ c h same. absurd (ground (arith, k, same))) d
step-Dropped settings clock (begins_deletion q) id s k d = pop-All (ExpiresBy id 0) q s.cache d
step-Dropped settings clock (commits_deletion q) id s k d = d
step-Dropped settings clock (invalidates q) id s k d = pop-All (ExpiresBy id 0) q s.cache d
step-Dropped settings clock (elsewhere f) id s k d = d

run-Dropped :
    (settings : AuthSettings) (calls : List (Clock × SessionCall)) (id : String) (s : SessionStore)
    → All (λ (c : Clock × SessionCall). NoLoadOf id c.1) calls
    → Dropped id s
    → Dropped id (session_run settings calls s)
unfolding session_run
run-Dropped settings [] id s k d = d
run-Dropped settings ((clock, call) ∷ calls) id s k d =
    run-Dropped settings calls id (session_step settings clock call s) k.1
      (step-Dropped settings clock call id s k.0 d)

begin-Dropped : (id : String) (s : SessionStore) → Dropped id (begin_delete_session id s)
unfolding begin_delete_session pop delete_entry
begin-Dropped id s =
    All-imp _ _ (begin_delete_session id s).cache.entries
      (λ e other same. absurd (ground (arith, other, same)))
      (filter-All (λ (e : CacheEntry String Context). str_eq e.key id) s.cache.entries)

commit-IsGone :
    (id : String) (s : SessionStore) → Dropped id s → IsGone id 0 (commit_delete_session id s)
unfolding commit_delete_session delete_row
commit-IsGone id s d = record {
  absent = filter-All (λ (r : SessionRow). str_eq r.session_id id) s.db.sessions;
  expires = d;
}

-- A session whose deletion this process has begun and committed is never loaded again by it,
-- whatever happens in between and after, under these conditions: in between this process does not
-- load the session (a load is one step, so none that read the row before is still on its way), and
-- after no session of its id is created and other processes do not bring its
-- row back.
pub delete_session_final :
    (settings : AuthSettings) (id : String) (s : SessionStore)
    (between after : List (Clock × SessionCall)) (clock : Clock) (c : Context)
    → All (λ (c : Clock × SessionCall). NoLoadOf id c.1) between
    → All (λ (c : Clock × SessionCall). KeepsAbsent id c.1) after
    → ¬ (
        (load_authenticated_user settings clock id (
          session_run settings after (
            commit_delete_session id (session_run settings between (begin_delete_session id s))))).0
        ≡ ok (some c))
delete_session_final settings id s between after clock c quiet k =
    let t = session_run settings between (begin_delete_session id s) in
    let dropped = run-Dropped settings between id _ quiet (begin-Dropped id s) in
    gone_not_loaded settings clock id 0 (session_run settings after (commit_delete_session id t)) c
      (omega arith)
      (run-IsGone settings after id 0 (commit_delete_session id t) k (commit-IsGone id t dropped))
