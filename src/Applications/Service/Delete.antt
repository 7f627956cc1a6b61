-- ===== src/Applications/Service/Delete.antt =====
-- delete_application_record of app/domain/volunteer_applications/service.py.
use kvarteret_personal.Prelude.{
  ℕ, ◌≡◌, ◌≢◌, refl, sym, ◌∙◌, ap, subst, true, false, not, none, some, List, [], ◌∷◌, ◌==◌, arith,
  is_some, filter_by,
}
use kvarteret_personal.Exec.{ok, >>=-eq_ok}
use kvarteret_personal.Applications.StateMachine.{new, same_state}
use kvarteret_personal.Applications.Store.{Db, Application, get_detail}
use kvarteret_personal.Applications.Store.Statements.{delete_application}
use kvarteret_personal.Applications.Service.{Env}
use kvarteret_personal.Applications.Service.Records.{delete_application_record}
use kvarteret_personal.Applications.Service.Outcomes.{
  raise_if-eq_ok, lock_detail-eq_ok, modify-eq_ok, pure-eq_ok, raise_if_not,
}

get_detail-delete_application :
    (id : ℕ) (rows : List Application)
    → get_detail id (filter_by (λ (a : Application). not (a.registration_id == id)) rows) ≡ none
unfolding get_detail
get_detail-delete_application id [] = refl
get_detail-delete_application id (a ∷ rows) = ground (arith, get_detail-delete_application id rows)

get_detail-delete_other :
    (k id : ℕ) (rows : List Application)
    → k ≢ id
    → get_detail k (filter_by (λ (a : Application). not (a.registration_id == id)) rows)
      ≡ get_detail k rows
unfolding get_detail
get_detail-delete_other k id [] h = refl
get_detail-delete_other k id (a ∷ rows) h = ground (arith, get_detail-delete_other k id rows h)

-- A deletion, between the database and the one that it leaves.
pub record Deleted (env : Env) (id : ℕ) (d : Application) (s s' : Db) : Type 0 where
  pub was_locked : get_detail id (env.others s).applications ≡ some d
  pub was_new : same_state d.status new ≡ true
  pub was_open : is_some d.submission ≡ false
  pub is_gone : get_detail id s'.applications ≡ none
  pub keeps_others :
      (k : ℕ) → k ≢ id → get_detail k s'.applications ≡ get_detail k (env.others s).applications

Deleted-of_steps :
    (env : Env) (id : ℕ) (d d' : Application) (s s1 s' : Db)
    → get_detail id s1.applications ≡ some d
    → s1 ≡ env.others s
    → same_state d.status new ≡ true
    → is_some d.submission ≡ false
    → s' ≡ delete_application id s1
    → d ≡ d'
    → Deleted env id d' s s'
unfolding delete_application
Deleted-of_steps env id d d' s s1 s' l f1 was unsent f2 p =
    let left = ap (λ (x : Db). x.applications) (f2 ∙ ap (delete_application id) f1) in
    subst (λ (x : Application). Deleted env id x s s') p
      (record {
        was_locked = ap (λ (x : Db). get_detail id x.applications) (sym f1) ∙ l;
        was_new = was;
        was_open = unsent;
        is_gone =
            ap (get_detail id) left ∙ get_detail-delete_application id (env.others s).applications;
        keeps_others = λ k h.
            ap (get_detail k) left ∙ get_detail-delete_other k id (env.others s).applications h;
      })

-- A deletion that returned found the application, behind the lock, new and without a submission.
-- It is gone, and every other application is as it was behind the lock.
pub delete_record_sound :
    (env : Env) (id : ℕ) (s s' : Db) (d : Application)
    → delete_application_record env id s ≡ (ok d, s')
    → Deleted env id d s s'
unfolding delete_application_record
delete_record_sound env id s s' d h =
    let (d1, s1, e1, h1) = >>=-eq_ok _ _ _ _ _ h in
    let (_, s2, e2, h2) = >>=-eq_ok _ _ _ _ _ h1 in
    let (_, s3, e3, h3) = >>=-eq_ok _ _ _ _ _ h2 in
    let (_, s4, e4, h4) = >>=-eq_ok _ _ _ _ _ h3 in
    let (locked, f1) = lock_detail-eq_ok env id s s1 d1 e1 in
    let (b2, f2) = raise_if-eq_ok _ _ s1 s2 _ e2 in
    let (b3, f3) = raise_if-eq_ok _ _ s2 s3 _ e3 in
    let f4 = modify-eq_ok (delete_application id) s3 s4 _ e4 in
    let (p, f5) = pure-eq_ok d1 d s4 s' h4 in
    Deleted-of_steps env id d1 d s s1 s' locked f1 (raise_if_not _ b2) b3
      (f5 ∙ f4 ∙ ap (delete_application id) (f3 ∙ f2)) p
