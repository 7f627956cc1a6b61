-- ===== src/Auth/Login/Accounts.antt =====
-- The accounts that `login` of app/auth/login_service.py finds and writes.
use kvarteret_personal.Prelude.{
  ℕ, ◌≡◌, refl, ap, subst, inl, inr, Bool, true, false, Option, none, some, List, [], ◌∷◌, String,
  if◌then◌else◌, str_eq, ◌==◌, arith, All-find_first, AllPairs, Bool-cases, find_first,
  update_where, String_key,
}
use kvarteret_personal.Exec.{ok, Result}
use kvarteret_personal.Auth.Roles.{UserRole, to_role}
use kvarteret_personal.Auth.Repository.{
  AccountRow, AuthDb, AuthError, UserAccount, account_by_identifier, get_user_account_by_identifier,
  mark_onboarding_complete, find_account, map_user_account, map_found, account_with, found_account,
}
use kvarteret_personal.Auth.SessionStore.{Clock, SessionStore}
use kvarteret_personal.Auth.Login.{complete_onboarding}

-- The account is that of the row.
abbrev pub OfRow : AccountRow → UserAccount → Type 0
OfRow a account =
    (to_role a.role ≡ some account.role)
    × (account.id ≡ a.id)
    × (account.username ≡ a.username)
    × (account.email ≡ a.email)
    × (account.display_name ≡ a.display_name)

abbrev account_or : UserAccount → Result AuthError (Option UserAccount) → UserAccount
account_or d (ok (some account)) = account
account_or d _ = d

account_with_row :
    (a : AccountRow) (o : Option UserRole) (account : UserAccount)
    → to_role a.role ≡ o
    → found_account (account_with a o) ≡ ok (some account)
    → OfRow a account
account_with_row a none account e h = absurd cc
account_with_row a (some role) account e h =
    subst (OfRow a) (ap (account_or account) h) (e, refl, refl, refl, refl)

map_found_row :
    (o : Option AccountRow) (account : UserAccount)
    → map_found o ≡ ok (some account)
    → (a : AccountRow) × (o ≡ some a) × OfRow a account
unfolding map_found map_user_account
map_found_row none account h = absurd cc
map_found_row (some a) account h = (a, refl, account_with_row a (to_role a.role) account refl h)

pub account_row :
    (legacy : Bool) (identifier : String) (db : AuthDb) (account : UserAccount)
    → get_user_account_by_identifier legacy identifier db ≡ ok (some account)
    → (a : AccountRow) × (account_by_identifier legacy identifier db.accounts ≡ some a)
      × OfRow a account
unfolding get_user_account_by_identifier
account_row legacy identifier db account h = map_found_row _ account h

-- Account ids are unique.
abbrev pub UniqueAccounts : List AccountRow → Type 0
UniqueAccounts = AllPairs (λ (a b : AccountRow). a.id == b.id ≡ false)

pub found_by_id :
    (p : AccountRow → Bool) (rows : List AccountRow) (a : AccountRow)
    → UniqueAccounts rows
    → find_first p rows ≡ some a
    → find_account (some a.id) rows ≡ some a
found_by_id p [] a u h = absurd cc
found_by_id p (x ∷ rows) a u h = elim (Bool-cases (p x)) [
  | inl first ↦
      let e : x ≡ a = ground (arith, first, h) in
      subst (λ b. find_account (some b.id) (x ∷ rows) ≡ some b) e (ground arith)
  | inr later ↦
      let rest : find_first p rows ≡ some a = ground (arith, later, h) in
      let ne = All-find_first (λ (b : AccountRow). x.id == b.id ≡ false) p rows a u.0 rest in
      rw ne (found_by_id p rows a u.1 rest)
]

found_updated :
    (id : ℕ) (q : AccountRow → Bool) (f : AccountRow → AccountRow) (rows : List AccountRow)
    (a : AccountRow)
    → ((b : AccountRow) → (f b).id ≡ b.id)
    → find_account (some id) rows ≡ some a
    → find_account (some id) (update_where q f rows) ≡ some (if q a then f a else a)
found_updated id q f [] a same h = absurd cc
found_updated id q f (x ∷ rows) a same h = ground (arith, same x, found_updated id q f rows a same)

-- The account that the session's user is read from, when the status is written.
abbrev pub Kept : AccountRow → AccountRow → Type 0
Kept a b =
    (b.role ≡ a.role)
    × (b.username ≡ a.username)
    × (b.email ≡ a.email)
    × (b.display_name ≡ a.display_name)
    × (b.is_legacy_account ≡ a.is_legacy_account)

pub onboarding_account :
    (clock : Clock) (writable : Bool) (auth_user_id : String) (s : SessionStore) (a : AccountRow)
    → find_account (some a.id) s.db.accounts ≡ some a
    → (b : AccountRow) × (find_account
          (some a.id)
          (complete_onboarding clock writable auth_user_id s).db.accounts
        ≡ some b)
      × Kept a b
unfolding complete_onboarding mark_onboarding_complete
onboarding_account clock false auth_user_id s a h = (a, h, (refl, refl, refl, refl, refl))
onboarding_account clock true auth_user_id s a h = (
  _,
  found_updated a.id (λ (b : AccountRow). str_eq b.auth_user_id auth_user_id) _ s.db.accounts a
      (λ b. refl) h,
  elim (Bool-cases (str_eq a.auth_user_id auth_user_id)) [
    | inl same ↦ rw same (refl, refl, refl, refl, refl)
    | inr other ↦ rw other (refl, refl, refl, refl, refl)
  ],
)

pub onboarding_sessions :
    (clock : Clock) (writable : Bool) (auth_user_id : String) (s : SessionStore)
    → (complete_onboarding clock writable auth_user_id s).db.sessions ≡ s.db.sessions
unfolding complete_onboarding mark_onboarding_complete
onboarding_sessions clock true auth_user_id s = refl
onboarding_sessions clock false auth_user_id s = refl
