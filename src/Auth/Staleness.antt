-- ===== src/Auth/Staleness.antt =====
-- How long app/auth/session_store.py may serve a session that another process has deleted.
use kvarteret_personal.Prelude.{
  ℕ, ◌+◌, ◌≤◌, ◌≡◌, refl, ◌∙◌, List, [], ◌∷◌, some, String, arith, max, All, All-imp, String_key,
}
use kvarteret_personal.Exec.{ok}
use kvarteret_personal.Cache.{CacheEntry, init_cache, pop}
use kvarteret_personal.Cache.Entries.{pop-All}
use kvarteret_personal.Auth.Repository.{AuthDb, Context}
use kvarteret_personal.Auth.SessionStore.{
  AuthSettings, Clock, SessionStore, SessionCall, creates, loads, begins_deletion, commits_deletion,
  invalidates, elsewhere, init_store, create_session, load_authenticated_user, begin_delete_session,
  commit_delete_session, invalidate_session_cache, session_step, session_run,
}
use kvarteret_personal.Auth.Loads.{load-All, load-Settled}
use kvarteret_personal.Auth.Revocation.{Absent, KeepsAbsent, run-IsGone, gone_not_loaded}

-- Every entry has expired at this time, if the entries to come live for `ttl`.
record Timely (ttl deadline : ℕ) (s : SessionStore) : Type 0 where
  lives : s.cache.ttl_seconds ≡ ttl
  expires : All (λ (e : CacheEntry String Context). e.expires_at ≤ deadline) s.cache.entries

step-Timely :
    (settings : AuthSettings) (clock : Clock) (call : SessionCall) (ttl deadline : ℕ)
    (s : SessionStore)
    → clock.monotonic + ttl ≤ deadline
    → Timely ttl deadline s
    → Timely ttl deadline (session_step settings clock call s)
unfolding session_step create_session begin_delete_session commit_delete_session
    invalidate_session_cache pop
step-Timely settings clock (creates n) ttl deadline s le t = record {
  lives = t.lives;
  expires = pop-All _ n.session_id s.cache t.expires;
}
step-Timely settings clock (loads q) ttl deadline s le t = record {
  lives = (load-Settled settings clock q s).1 ∙ t.lives;
  expires =
      load-All (λ (e : CacheEntry String Context). e.expires_at ≤ deadline) settings clock q s
        (λ c h. omega (arith, t.lives, le)) t.expires;
}
step-Timely settings clock (commits_deletion q) ttl deadline s le t = record {
  lives = t.lives;
  expires = t.expires;
}
step-Timely settings clock (begins_deletion q) ttl deadline s le t = record {
  lives = t.lives;
  expires = pop-All _ q s.cache t.expires;
}
step-Timely settings clock (invalidates q) ttl deadline s le t = record {
  lives = t.lives;
  expires = pop-All _ q s.cache t.expires;
}
step-Timely settings clock (elsewhere f) ttl deadline s le t = record {
  lives = t.lives;
  expires = t.expires;
}

run-Timely :
    (settings : AuthSettings) (calls : List (Clock × SessionCall)) (ttl deadline : ℕ)
    (s : SessionStore)
    → All (λ (c : Clock × SessionCall). c.0.monotonic + ttl ≤ deadline) calls
    → Timely ttl deadline s
    → Timely ttl deadline (session_run settings calls s)
unfolding session_run
run-Timely settings [] ttl deadline s le t = t
run-Timely settings ((clock, call) ∷ calls) ttl deadline s le t =
    run-Timely settings calls ttl deadline (session_step settings clock call s) le.1
      (step-Timely settings clock call ttl deadline s le.0 t)

-- If another process deletes a session behind calls that all came up to some time, then this process
-- loads it no more once its cache's lifetime has passed since, which is at least a second. The
-- session must not be created again, nor its row brought back.
pub revoked_elsewhere :
    (settings : AuthSettings) (db : AuthDb) (before after : List (Clock × SessionCall))
    (id : String) (time : ℕ) (deleted : AuthDb) (clock : Clock) (c : Context)
    → All (λ (c : Clock × SessionCall). c.0.monotonic ≤ time) before
    → Absent id deleted
    → All (λ (c : Clock × SessionCall). KeepsAbsent id c.1) after
    → time + max 1 settings.session_cache_ttl_seconds ≤ clock.monotonic
    → ¬ (
        (load_authenticated_user settings clock id (
          session_run settings after
            (record (session_run settings before (init_store settings db)) { db = deleted }))).0
        ≡ ok (some c))
unfolding init_store init_cache
revoked_elsewhere settings db before after id time deleted clock c early absent keeps late =
    let ttl = max 1 settings.session_cache_ttl_seconds in
    let s = session_run settings before (init_store settings db) in
    let t =
      run-Timely settings before ttl (time + ttl) (init_store settings db)
        (All-imp _ _ before (λ call le. omega (arith, le)) early)
        (record { lives = refl; expires = tt }) in
    gone_not_loaded settings clock id (time + ttl)
      (session_run settings after (record s { db = deleted })) c late
      (run-IsGone settings after id (time + ttl) (record s { db = deleted }) keeps
        (record {
          absent = absent;
          expires = All-imp _ _ s.cache.entries (λ e le same. le) t.expires;
        }))
