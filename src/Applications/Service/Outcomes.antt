-- ===== src/Applications/Service/Outcomes.antt =====
-- What is known of a step of app/domain/volunteer_applications/service.py that returned.
use kvarteret_personal.Prelude.{
  find_first, update_where, ℕ, ◌≡◌, refl, sym, ◌∙◌, ap, Bool, true, false, not, Option, none, some,
  List, [], ◌∷◌, arith,
}
use kvarteret_personal.Exec.{ok, pure, raise_if, or_raise, gets, modify, ◌>>=◌, >>=-eq_ok}
use kvarteret_personal.Exec.Keeps.{Keeps}
use kvarteret_personal.Applications.Store.{Db, Application, EventRow, get_detail}
use kvarteret_personal.Applications.Service.{Env, Error, DbExec, require_detail, lock_detail}
use kvarteret_personal.Applications.Service.Steps.{rows_of, HasRows}

pub raise_if-eq_ok :
    {S : Type 0} (b : Bool) (e : Error) (s s' : S) (u : Unit {0})
    → raise_if b e s ≡ (ok u, s')
    → (b ≡ false) × (s' ≡ s)
unfolding raise_if
raise_if-eq_ok true e s s' u h = cc
raise_if-eq_ok false e s s' u h = (refl, cc)

pub or_raise-eq_ok :
    {S A : Type 0} (o : Option A) (e : Error) (s s' : S) (a : A)
    → or_raise o e s ≡ (ok a, s')
    → (o ≡ some a) × (s' ≡ s)
unfolding or_raise
or_raise-eq_ok none e s s' a h = cc
or_raise-eq_ok (some b) e s s' a h = (cc, cc)

pub require_detail-eq_ok :
    (id : ℕ) (s s' : Db) (d : Application)
    → require_detail id s ≡ (ok d, s')
    → (get_detail id s.applications ≡ some d) × (s' ≡ s)
unfolding require_detail ◌>>=◌
require_detail-eq_ok id s s' d h = or_raise-eq_ok (get_detail id s.applications) _ s s' d h

pub modify-eq_ok :
    (f : Db → Db) (s s' : Db) (u : Unit {0}) → modify {E = Error} f s ≡ (ok u, s') → s' ≡ f s
unfolding modify
modify-eq_ok f s s' u h = cc

pub lock_detail-eq_ok :
    (env : Env) (id : ℕ) (s s' : Db) (d : Application)
    → lock_detail env id s ≡ (ok d, s')
    → (get_detail id s'.applications ≡ some d) × (s' ≡ env.others s)
unfolding lock_detail
lock_detail-eq_ok env id s s' d h =
    let (_, s1, e1, h1) = >>=-eq_ok _ _ _ _ _ h in
    let (_, s2, e2, h2) = >>=-eq_ok _ _ _ _ _ h1 in
    let (g, e3) = require_detail-eq_ok id s2 s' d h2 in
    let (_, e4) = require_detail-eq_ok id s s1 _ e1 in
    let e5 = modify-eq_ok env.others s1 s2 _ e2 in (rw e3 g, e3 ∙ e5 ∙ ap env.others e4)

module _ {A : Type 0} (p q : A → Bool) (f : A → A) where
  pub find_first-holds : (rows : List A) (x : A) → find_first p rows ≡ some x → p x ≡ true
  find_first-holds [] x h = cc
  find_first-holds (a ∷ rows) x h = ground (arith, find_first-holds rows x)

  -- The first row of a search, if the update changes it.
  pub find_first-update :
      (rows : List A) (x : A)
      → ((a : A) → p (f a) ≡ p a)
      → find_first p rows ≡ some x
      → q x ≡ true
      → find_first p (update_where q f rows) ≡ some (f x)
  find_first-update [] x same h k = cc
  find_first-update (a ∷ rows) x same h k = ground (arith, same a, find_first-update rows x same)

pub kept :
    {A : Type 0} {m : DbExec A} {a : A}
    → ((rows : List Application × List EventRow) → Keeps (HasRows rows) m)
    → (s s' : Db) → m s ≡ (ok a, s')
    → rows_of s' ≡ rows_of s
kept k s s' h = sym (ap (λ p. rows_of p.1) h) ∙ (k (rows_of s)).at s refl

pub raise_if_not : (b : Bool) → not b ≡ false → b ≡ true
raise_if_not true h = refl
raise_if_not false h = cc

module _ {S A : Type 0} where
  pub gets-eq_ok :
      (f : S → A) (s s' : S) (a : A) → gets {E = Error} f s ≡ (ok a, s') → (a ≡ f s) × (s' ≡ s)
  unfolding gets
  gets-eq_ok f s s' a h = (cc, cc)

  pub pure-eq_ok : (a b : A) (s s' : S) → pure {E = Error} a s ≡ (ok b, s') → (a ≡ b) × (s' ≡ s)
  unfolding pure
  pure-eq_ok a b s s' h = (cc, cc)
