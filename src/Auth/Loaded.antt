-- ===== src/Auth/Loaded.antt =====
-- What the repository of app/auth/repository.py loads for a session, by the rows that it read.
use kvarteret_personal.Prelude.{
  ℕ, ◌≡◌, refl, ap, sym, subst, ◌∙◌, inl, inr, Bool, true, ◌&&◌, Option, none, some, List, String,
  ltb, str_eq, String_key, arith, Bool-cases, Option-cases, is_some, found-passes,
}
use kvarteret_personal.Exec.{ok, err, Result}
use kvarteret_personal.Cache.{CacheEntry}
use kvarteret_personal.Auth.Roles.{UserRole, to_role}
use kvarteret_personal.Auth.Repository.{
  AccountRow, SessionRow, AuthDb, AuthError, AuthenticatedUser, Context, find_account, find_session,
  to_impersonator, to_user, user_with, with_user, with_impersonator, to_context, session_may_log_in,
  load_authenticated_user_for_session,
}

-- The context that is made of the row of a session, its account and the impersonator.
abbrev pub IsOf : SessionRow → AccountRow → Option AuthenticatedUser → Context → Type 0
IsOf r a i c =
    (c.0.session_id ≡ r.session_id)
    × (c.0.expires_at ≡ r.expires_at)
    × (c.0.auth_user_id ≡ r.auth_user_id)
    × (c.0.user_account_id ≡ r.user_account_id)
    × (c.0.impersonator_user ≡ i)
    × (c.1.auth_user_id ≡ r.auth_user_id)
    × (c.1.user_account_id ≡ r.user_account_id)
    × (c.1.username ≡ a.username)
    × (c.1.email ≡ a.email)
    × (c.1.display_name ≡ a.display_name)
    × (to_role a.role ≡ some c.1.role)
    × (c.1.is_impersonated ≡ is_some i)

-- Where a context was read: the row that the statement found, and the accounts that it was joined
-- with, its own and that of the impersonator.
pub record LoadedFrom (legacy : Bool) (db : AuthDb) (id : String) (c : Context) : Type 0 where
  pub time : ℕ
  pub row : SessionRow
  pub account : AccountRow
  pub found : find_session legacy time id db ≡ some row
  pub joined : find_account row.user_account_id db.accounts ≡ some account
  pub impersonator :
      to_impersonator row.impersonator_user_account_id row.impersonator_auth_user_id
        (find_account row.impersonator_user_account_id db.accounts)
      ≡ ok (some c.0.impersonator_user)
  pub is_of : IsOf row account c.0.impersonator_user c

-- What a load returns: the session asked for, not expired, as one of the databases `H` had it.
pub record IsLoaded (legacy : Bool) (H : AuthDb → Type 0) (now : ℕ) (id : String) (c : Context)
    : Type 0 where
  pub asked : str_eq c.0.session_id id ≡ true
  pub fresh : ltb now c.0.expires_at ≡ true
  pub db : AuthDb
  pub was : H db
  pub source : LoadedFrom legacy db id c

abbrev pub context_or : Context → Result AuthError (Option Context) → Context
context_or d (ok (some c)) = c
context_or d _ = d

-- The parts of `LoadedFrom` that the row determines.
abbrev FromRow : List AccountRow → SessionRow → Context → Type 0
FromRow accounts r c =
    (a : AccountRow) × (find_account r.user_account_id accounts ≡ some a)
    × (to_impersonator r.impersonator_user_account_id r.impersonator_auth_user_id
          (find_account r.impersonator_user_account_id accounts)
        ≡ ok (some c.0.impersonator_user))
    × IsOf r a c.0.impersonator_user c

user_with_row :
    (r : SessionRow) (a : AccountRow) (i : Option AuthenticatedUser) (o : Option UserRole)
    (c : Context)
    → to_role a.role ≡ o
    → with_user r i (user_with r a i o) ≡ ok (some c)
    → IsOf r a i c
user_with_row r a i none c e h = absurd cc
user_with_row r a i (some role) c e h =
    subst (IsOf r a i) (ap (context_or c) h)
      (refl, refl, refl, refl, refl, refl, refl, refl, refl, refl, e, refl)

to_user_row :
    (r : SessionRow) (o : Option AccountRow) (i : Option AuthenticatedUser) (c : Context)
    → with_user r i (to_user r o i) ≡ ok (some c)
    → (a : AccountRow) × (o ≡ some a) × IsOf r a i c
to_user_row r none i c h = absurd cc
to_user_row r (some a) i c h = (a, refl, user_with_row r a i (to_role a.role) c refl h)

impersonator_is :
    (r : SessionRow) (a : AccountRow) (i : Option AuthenticatedUser) (c : Context)
    → IsOf r a i c
    → i ≡ c.0.impersonator_user
impersonator_is r a i c h = sym h.4

impersonated_row :
    (accounts : List AccountRow) (r : SessionRow)
    (x : Result AuthError (Option (Option AuthenticatedUser))) (c : Context)
    → to_impersonator r.impersonator_user_account_id r.impersonator_auth_user_id
        (find_account r.impersonator_user_account_id accounts)
      ≡ x
    → with_impersonator r accounts x ≡ ok (some c)
    → FromRow accounts r c
impersonated_row accounts r (err e) c x h = absurd cc
impersonated_row accounts r (ok none) c x h = absurd cc
impersonated_row accounts r (ok (some i)) c x h =
    let (a, joined, of) = to_user_row r (find_account r.user_account_id accounts) i c h in
    let same = impersonator_is r a i c of in
    (a, joined, x ∙ ap (λ j. ok (some j)) same, subst (λ j. IsOf r a j c) same of)

to_context_row :
    (accounts : List AccountRow) (r : SessionRow) (c : Context)
    → to_context accounts (some r) ≡ ok (some c)
    → FromRow accounts r c
to_context_row accounts r c h = elim (Bool-cases (is_some r.user_account_id)) [
  | inl there ↦
      impersonated_row accounts r
        (to_impersonator r.impersonator_user_account_id r.impersonator_auth_user_id
          (find_account r.impersonator_user_account_id accounts))
        c refl (ground (arith, there, h))
  | inr absent ↦ absurd (ground (arith, absent, h))
]

pub loaded_row :
    (legacy : Bool) (now : ℕ) (id : String) (db : AuthDb) (c : Context)
    → load_authenticated_user_for_session legacy now id db ≡ ok (some c)
    → (r : SessionRow) × (find_session legacy now id db ≡ some r)
unfolding load_authenticated_user_for_session
loaded_row legacy now id db c h = elim (Option-cases (find_session legacy now id db)) [
  | inl missing ↦ absurd (ground (arith, missing, h))
  | inr found ↦ found
]

found_row :
    (legacy : Bool) (now : ℕ) (id : String) (db : AuthDb) (r : SessionRow)
    → find_session legacy now id db ≡ some r
    → (str_eq r.session_id id ≡ true) × (ltb now r.expires_at ≡ true)
unfolding find_session
found_row legacy now id db r found =
    let test =
      found-passes
        (λ (r : SessionRow).
          str_eq r.session_id id && ltb now r.expires_at && session_may_log_in legacy db.accounts r)
        db.sessions r found in
    (ground (arith, test), ground (arith, test))

-- What the repository returns.
pub repository_loads :
    (legacy : Bool) (H : AuthDb → Type 0) (now : ℕ) (id : String) (db : AuthDb) (c : Context)
    → H db
    → load_authenticated_user_for_session legacy now id db ≡ ok (some c)
    → IsLoaded legacy H now id c
unfolding load_authenticated_user_for_session
repository_loads legacy H now id db c was h =
    let (r, found) = loaded_row legacy now id db c h in
    let (a, joined, impersonator, of) =
      to_context_row db.accounts r c
        (subst (λ o. to_context db.accounts o ≡ ok (some c)) found h) in
    let (asked, fresh) = found_row legacy now id db r found in
    record {
      asked = rw of.0 asked;
      fresh = rw of.1 fresh;
      db = db;
      was = was;
      source = record {
        time = now;
        row = r;
        account = a;
        found = found;
        joined = joined;
        impersonator = impersonator;
        is_of = of;
      };
    }

-- The entry holds a session under its own id, read from one of the databases `H`.
abbrev pub IsOwn : Bool → (AuthDb → Type 0) → CacheEntry String Context → Type 0
IsOwn legacy H e =
    (str_eq e.value.0.session_id e.key ≡ true)
    × ((db : AuthDb) × H db × LoadedFrom legacy db e.key e.value)

pub loaded-IsOwn :
    (legacy : Bool) (H : AuthDb → Type 0) (now ttl : ℕ) (id : String) (c : Context)
    → IsLoaded legacy H now id c
    → IsOwn legacy H (record { key = id; value = c; expires_at = ttl })
loaded-IsOwn legacy H now ttl id c l = (l.asked, (l.db, l.was, l.source))
