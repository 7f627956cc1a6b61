-- ===== src/Auth/Login/Passed.antt =====
-- What `login` of app/auth/login_service.py goes through before it opens a session.
use kvarteret_personal.Prelude.{◌≡◌, refl, ap, ◌∙◌, Bool, Option, none, some, String, String_key}
use kvarteret_personal.Text.{strip, lower}
use kvarteret_personal.Exec.{Exec, ok, err, Result, gets, modify, or_raise, ◌>>=◌, ◌>>◌}
use kvarteret_personal.Auth.Repository.{AuthError, UserAccount, get_user_account_by_identifier}
use kvarteret_personal.Auth.SessionStore.{AuthSettings, Clock, SessionStore}
use kvarteret_personal.Auth.Login.{
  SignIn, LoginResult, LoginRequest, returns, complete_onboarding, open_session, login,
}

-- What a login that returned went through.
pub record Passed (settings : AuthSettings) (sign_in : SignIn) (writable : Bool) (clock : Clock)
    (r : LoginRequest) (s t : SessionStore) (result : LoginResult) : Type 0 where
  pub account : UserAccount
  pub auth_user_id : String
  pub looked_up :
      get_user_account_by_identifier settings.legacy_login_enabled (lower (strip r.identifier)) s.db
      ≡ ok (some account)
  pub signed_in : sign_in account.email r.password ≡ ok (some auth_user_id)
  pub opened :
      open_session settings clock r account auth_user_id
        (complete_onboarding clock writable auth_user_id s)
      ≡ (ok result, t)

module _ {A B : Type 0} where
  returns_then :
      (r : Result AuthError A) (k : A → Exec SessionStore AuthError B) (s t : SessionStore) (b : B)
      → (returns r >>= k) s ≡ (ok b, t)
      → (a : A) × (r ≡ ok a) × (k a s ≡ (ok b, t))
  unfolding ◌>>=◌ returns
  returns_then (ok a) k s t b h = (a, refl, h)
  returns_then (err e) k s t b h = absurd cc

  or_raise_then :
      (o : Option A) (e : AuthError) (k : A → Exec SessionStore AuthError B) (s t : SessionStore)
      (b : B)
      → (or_raise o e >>= k) s ≡ (ok b, t)
      → (a : A) × (o ≡ some a) × (k a s ≡ (ok b, t))
  unfolding ◌>>=◌ or_raise
  or_raise_then (some a) e k s t b h = (a, refl, h)
  or_raise_then none e k s t b h = absurd cc

  gets_then :
      (f : SessionStore → A) (k : A → Exec SessionStore AuthError B) (s t : SessionStore) (b : B)
      → (gets f >>= k) s ≡ (ok b, t)
      → k (f s) s ≡ (ok b, t)
  unfolding ◌>>=◌ gets
  gets_then f k s t b h = h

module _ {B : Type 0} where
  modify_then :
      (f : SessionStore → SessionStore) (k : Exec SessionStore AuthError B) (s t : SessionStore)
      (b : B)
      → (modify f >> k) s ≡ (ok b, t)
      → k (f s) ≡ (ok b, t)
  unfolding ◌>>=◌ modify
  modify_then f k s t b h = h

pub login-Passed :
    (settings : AuthSettings) (sign_in : SignIn) (writable : Bool) (clock : Clock)
    (r : LoginRequest) (s t : SessionStore) (result : LoginResult)
    → login settings sign_in writable clock r s ≡ (ok result, t)
    → Passed settings sign_in writable clock r s t result
unfolding login
login-Passed settings sign_in writable clock r s t result h =
    let (found, looked_up, h1) = returns_then _ _ s t result (gets_then _ _ s t result h) in
    let (account, is_there, h2) = or_raise_then found _ _ s t result h1 in
    let (answer, answered, h3) = returns_then _ _ s t result h2 in
    let (auth_user_id, accepted, h4) = or_raise_then answer _ _ s t result h3 in
    record {
      account = account;
      auth_user_id = auth_user_id;
      looked_up = looked_up ∙ ap ok is_there;
      signed_in = answered ∙ ap ok accepted;
      opened = modify_then _ _ s t result h4;
    }
