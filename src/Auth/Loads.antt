-- ===== src/Auth/Loads.antt =====
-- What load_authenticated_user of app/auth/session_store.py returns, and what it leaves in the cache.
use kvarteret_personal.Prelude.{
  ℕ, ◌+◌, ◌<◌, ◌≡◌, refl, ap, sym, subst, ◌∙◌, ◌⊎◌, inl, inr, Bool, true, false, Option, none, some,
  String, leb, ltb, if◌then◌else◌, String_key, arith, All, Bool-cases,
}
use kvarteret_personal.Exec.{ok, err, Result}
use kvarteret_personal.Cache.{CacheEntry, get, set, pop, find_entry}
use kvarteret_personal.Cache.Entries.{get-value, get-ttl, get-All, set-All, pop-All}
use kvarteret_personal.Auth.Repository.{
  AuthDb, AuthError, Context, load_authenticated_user_for_session,
}
use kvarteret_personal.Auth.Loaded.{context_or}
use kvarteret_personal.Auth.SessionStore.{
  AuthSettings, Clock, SessionStore, store_context, reload, use_cached, load_authenticated_user,
}

module _ (P : CacheEntry String Context → Type 0) (settings : AuthSettings) (clock : Clock)
    (id : String) where
  -- What the repository may load makes an entry that satisfies `P`, if entries live this long.
  abbrev pub Stores : ℕ → AuthDb → Type 0
  Stores ttl db =
      (c : Context)
      → load_authenticated_user_for_session settings.legacy_login_enabled clock.utc id db
        ≡ ok (some c)
      → P (record { key = id; value = c; expires_at = clock.monotonic + ttl })

  store-All :
      (r : Result AuthError (Option Context)) (s : SessionStore)
      → ((c : Context)
          → r ≡ ok (some c)
          → P (record { key = id; value = c; expires_at = clock.monotonic + s.cache.ttl_seconds }))
      → All P s.cache.entries
      → All P (store_context clock id r s).1.cache.entries
  store-All (err e) s new a = a
  store-All (ok none) s new a = pop-All P id s.cache a
  store-All (ok (some c)) s new a = set-All P clock.monotonic id c s.cache (new c refl) a

  reload-All :
      (s : SessionStore)
      → Stores s.cache.ttl_seconds s.db
      → All P s.cache.entries
      → All P (reload settings clock id s).1.cache.entries
  unfolding reload
  reload-All s new a = store-All _ s new a

  use_cached-All :
      (cached : Option Context) (s : SessionStore)
      → Stores s.cache.ttl_seconds s.db
      → All P s.cache.entries
      → All P (use_cached settings clock id cached s).1.cache.entries
  unfolding use_cached pop
  use_cached-All none s new a = reload-All s new a
  use_cached-All (some c) s new a = elim (Bool-cases (leb c.0.expires_at clock.utc)) [
    | inl expired ↦
        rw expired (reload-All (record s { cache = pop id s.cache }) new (pop-All P id s.cache a))
    | inr fresh ↦ rw fresh a
  ]

  -- Of the entries that a load leaves: the old ones, and one that the repository has loaded.
  pub load-All :
      (s : SessionStore)
      → Stores s.cache.ttl_seconds s.db
      → All P s.cache.entries
      → All P (load_authenticated_user settings clock id s).1.cache.entries
  unfolding load_authenticated_user
  load-All s new a =
      let (cached, cache) = get clock.monotonic id s.cache in
      use_cached-All cached (record s { cache = cache })
        (subst (λ ttl. Stores ttl s.db) (sym (get-ttl clock.monotonic id s.cache)) new)
        (get-All P clock.monotonic id s.cache a)

pub store_returns :
    (clock : Clock) (id : String) (r : Result AuthError (Option Context)) (s : SessionStore)
    → r ≡ (store_context clock id r s).0
store_returns clock id (err e) s = refl
store_returns clock id (ok none) s = refl
store_returns clock id (ok (some c)) s = refl

-- A cached session, by the test of its time.
expired_or_fresh :
    (settings : AuthSettings) (clock : Clock) (id : String) (d : Context) (s : SessionStore)
    (c : Context) (b : Bool)
    → leb d.0.expires_at clock.utc ≡ b
    → (if b
        then reload settings clock id (record s { cache = pop id s.cache })
        else (ok (some d), s)).0
      ≡ ok (some c)
    → ((some d ≡ some c) × (ltb clock.utc c.0.expires_at ≡ true))
      ⊎ (load_authenticated_user_for_session settings.legacy_login_enabled clock.utc id s.db
          ≡ ok (some c))
unfolding reload
expired_or_fresh settings clock id d s c true e h = inr (store_returns clock id _ _ ∙ h)
expired_or_fresh settings clock id d s c false e h =
    let same : d ≡ c = ap (context_or c) h in
    inl (ap some same, subst (λ x. ltb clock.utc x.0.expires_at ≡ true) same (ground (arith, e)))

-- What a load returns comes from the cache, or the repository has loaded it.
use_cached_returns :
    (settings : AuthSettings) (clock : Clock) (id : String) (cached : Option Context)
    (s : SessionStore) (c : Context)
    → (use_cached settings clock id cached s).0 ≡ ok (some c)
    → ((cached ≡ some c) × (ltb clock.utc c.0.expires_at ≡ true))
      ⊎ (load_authenticated_user_for_session settings.legacy_login_enabled clock.utc id s.db
          ≡ ok (some c))
unfolding use_cached reload
use_cached_returns settings clock id none s c h = inr (store_returns clock id _ s ∙ h)
use_cached_returns settings clock id (some d) s c h =
    expired_or_fresh settings clock id d s c (leb d.0.expires_at clock.utc) refl h

pub load_returns :
    (settings : AuthSettings) (clock : Clock) (id : String) (s : SessionStore) (c : Context)
    → (load_authenticated_user settings clock id s).0 ≡ ok (some c)
    → ((e : CacheEntry String Context) × (find_entry id s.cache.entries ≡ some e)
        × (e.value ≡ c)
        × (clock.monotonic < e.expires_at)
        × (ltb clock.utc c.0.expires_at ≡ true))
      ⊎ (load_authenticated_user_for_session settings.legacy_login_enabled clock.utc id s.db
          ≡ ok (some c))
unfolding load_authenticated_user
load_returns settings clock id s c h =
    elim (use_cached_returns settings clock id (get clock.monotonic id s.cache).0
      (record s { cache = (get clock.monotonic id s.cache).1 }) c h) [
        | inl (hit, fresh) ↦
            let (e, found, value, lives) = get-value clock.monotonic id s.cache c hit in
            inl (e, found, value, lives, fresh)
        | inr loaded ↦ inr loaded
      ]

-- A load changes nothing in the database, nor how long entries live.
abbrev pub Settled : SessionStore → SessionStore → Type 0
Settled s t = (t.db ≡ s.db) × (t.cache.ttl_seconds ≡ s.cache.ttl_seconds)

store-Settled :
    (clock : Clock) (id : String) (r : Result AuthError (Option Context)) (s : SessionStore)
    → Settled s (store_context clock id r s).1
unfolding pop set
store-Settled clock id (err e) s = (refl, refl)
store-Settled clock id (ok none) s = (refl, refl)
store-Settled clock id (ok (some c)) s = (refl, refl)

use_cached-Settled :
    (settings : AuthSettings) (clock : Clock) (id : String) (cached : Option Context)
    (s : SessionStore)
    → Settled s (use_cached settings clock id cached s).1
unfolding use_cached reload pop
use_cached-Settled settings clock id none s = store-Settled clock id _ s
use_cached-Settled settings clock id (some c) s = elim (Bool-cases (leb c.0.expires_at clock.utc)) [
  | inl expired ↦ rw expired (store-Settled clock id _ (record s { cache = pop id s.cache }))
  | inr fresh ↦ rw fresh (refl, refl)
]

pub load-Settled :
    (settings : AuthSettings) (clock : Clock) (id : String) (s : SessionStore)
    → Settled s (load_authenticated_user settings clock id s).1
unfolding load_authenticated_user
load-Settled settings clock id s =
    let (cached, cache) = get clock.monotonic id s.cache in
    let (db, ttl) = use_cached-Settled settings clock id cached (record s { cache = cache }) in
    (db, ttl ∙ get-ttl clock.monotonic id s.cache)
