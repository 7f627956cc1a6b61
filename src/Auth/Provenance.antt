-- ===== src/Auth/Provenance.antt =====
-- Where the sessions come from that app/auth/session_store.py serves, whatever happened before.
use kvarteret_personal.Prelude.{
  ◌+◌, ◌≡◌, refl, ◌⊎◌, subst, inl, inr, true, some, List, [], ◌∷◌, String, str_eq, eq_iff,
  String_key, All,
}
use kvarteret_personal.Exec.{ok}
use kvarteret_personal.Cache.{init_cache}
use kvarteret_personal.Cache.Entries.{pop-All, find-All, find-key}
use kvarteret_personal.Auth.Repository.{AuthDb, Context}
use kvarteret_personal.Auth.SessionStore.{
  AuthSettings, Clock, SessionStore, SessionCall, creates, loads, begins_deletion, commits_deletion,
  invalidates, elsewhere, init_store, create_session, load_authenticated_user, begin_delete_session,
  commit_delete_session, invalidate_session_cache, session_step, session_run,
}
use kvarteret_personal.Auth.Loaded.{IsLoaded, LoadedFrom, IsOwn, loaded-IsOwn, repository_loads}
use kvarteret_personal.Auth.Loads.{load-All, load_returns}

-- The databases that a store had during these calls, from before the first to behind the last.
unfoldable pub Occurs : AuthSettings → List (Clock × SessionCall) → SessionStore → AuthDb → Type 0
Occurs settings [] s db = db ≡ s.db
Occurs settings ((clock, call) ∷ calls) s db =
    (db ≡ s.db) ⊎ Occurs settings calls (session_step settings clock call s) db

module _ (settings : AuthSettings) (H : AuthDb → Type 0) where
  step-IsOwn :
      (clock : Clock) (call : SessionCall) (s : SessionStore)
      → H s.db
      → All (IsOwn settings.legacy_login_enabled H) s.cache.entries
      → All
          (IsOwn settings.legacy_login_enabled H)
          (session_step settings clock call s).cache.entries
  unfolding session_step create_session begin_delete_session commit_delete_session
      invalidate_session_cache
  step-IsOwn clock (creates n) s was a =
      pop-All (IsOwn settings.legacy_login_enabled H) n.session_id s.cache a
  step-IsOwn clock (loads id) s was a =
      load-All (IsOwn settings.legacy_login_enabled H) settings clock id s
        (λ c h.
          loaded-IsOwn settings.legacy_login_enabled H clock.utc
            (clock.monotonic + s.cache.ttl_seconds) id c
            (repository_loads settings.legacy_login_enabled H clock.utc id s.db c was h))
        a
  step-IsOwn clock (begins_deletion id) s was a =
      pop-All (IsOwn settings.legacy_login_enabled H) id s.cache a
  step-IsOwn clock (commits_deletion id) s was a = a
  step-IsOwn clock (invalidates id) s was a =
      pop-All (IsOwn settings.legacy_login_enabled H) id s.cache a
  step-IsOwn clock (elsewhere f) s was a = a

  run-IsOwn :
      (calls : List (Clock × SessionCall)) (s : SessionStore)
      → ((db : AuthDb) → Occurs settings calls s db → H db)
      → All (IsOwn settings.legacy_login_enabled H) s.cache.entries
      → All (IsOwn settings.legacy_login_enabled H) (session_run settings calls s).cache.entries
  unfolding session_run Occurs
  run-IsOwn [] s was a = a
  run-IsOwn ((clock, call) ∷ calls) s was a =
      run-IsOwn calls (session_step settings clock call s) (λ db o. was db (inr o))
        (step-IsOwn clock call s (was s.db (inl refl)) a)

Occurs-last :
    (settings : AuthSettings) (calls : List (Clock × SessionCall)) (s : SessionStore)
    → Occurs settings calls s (session_run settings calls s).db
unfolding Occurs session_run
Occurs-last settings [] s = refl
Occurs-last settings ((clock, call) ∷ calls) s =
    inr (Occurs-last settings calls (session_step settings clock call s))

-- Whatever happened to a new store, a load returns a session only if it is the one asked for and has
-- not expired. Session and user are those of one database that the store had by then: of a row of
-- the session, with the name, the address and the role of the account that the row names, and with
-- the impersonator that the row names; the user is marked as impersonated exactly if there is one.
pub load-IsLoaded :
    (settings : AuthSettings) (calls : List (Clock × SessionCall)) (db : AuthDb) (clock : Clock)
    (id : String) (c : Context)
    → (load_authenticated_user settings clock id
        (session_run settings calls (init_store settings db))).0
      ≡ ok (some c)
    → IsLoaded settings.legacy_login_enabled
        (Occurs settings calls (init_store settings db))
        clock.utc
        id
        c
unfolding init_store init_cache
load-IsLoaded settings calls db clock id c h =
    let s = session_run settings calls (init_store settings db) in
    let legacy = settings.legacy_login_enabled in
    let H = Occurs settings calls (init_store settings db) in
    elim (load_returns settings clock id s c h) [
      | inl (e, found, value, lives, fresh) ↦
          let (own, (db', was, source)) =
            find-All (IsOwn legacy H) id s.cache.entries e
              (run-IsOwn settings H calls (init_store settings db) (λ d o. o) tt) found in
          let key = (eq_iff e.key id).0 (find-key id s.cache.entries e found) in
          record {
            asked =
                subst (λ x. str_eq x.0.session_id id ≡ true) value
                  (subst (λ k. str_eq e.value.0.session_id k ≡ true) key own);
            fresh = fresh;
            db = db';
            was = was;
            source =
                subst (λ x. LoadedFrom legacy db' id x) value
                  (subst (λ k. LoadedFrom legacy db' k e.value) key source);
          }
      | inr loaded ↦
          repository_loads legacy H clock.utc id s.db c
            (Occurs-last settings calls (init_store settings db)) loaded
    ]
