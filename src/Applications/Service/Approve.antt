-- ===== src/Applications/Service/Approve.antt =====
-- approve_application_record of app/domain/volunteer_applications/service.py.
use kvarteret_personal.Prelude.{
  ℕ, ◌≡◌, refl, sym, ◌∙◌, ap, subst, Bool, true, Option, none, some, List, ◌==◌, ==_iff,
}
use kvarteret_personal.Exec.{ok, >>=-eq_ok}
use kvarteret_personal.Exec.Keeps.{Keeps}
use kvarteret_personal.Applications.StateMachine.{trial, same_state}
use kvarteret_personal.Applications.Store.{Db, Application, EventRow, get_detail, profile_complete}
use kvarteret_personal.Applications.Store.Statements.{role_matches_group, mark_promoted, promoted}
use kvarteret_personal.Applications.Service.{Env}
use kvarteret_personal.Applications.Service.Records.{
  Approval, is_allowed_group, resolve_role, resolve_semester, onboard, promote_linked,
  promote_profile, promote_detail, approve_application_record,
}
use kvarteret_personal.Applications.Service.Steps.{
  rows_of, HasRows, row_rules, reject_phone_duplicate-Keeps, known_or_by_email-Keeps,
}
use kvarteret_personal.Applications.Service.Outcomes.{
  gets-eq_ok, pure-eq_ok, raise_if-eq_ok, or_raise-eq_ok, lock_detail-eq_ok, modify-eq_ok, kept,
  raise_if_not, find_first-update,
}

module _ {rows : List Application × List EventRow} where
  onboard-Keeps :
      (env : Env) (d : Application) (group_id role_id semester : ℕ) (signed : Bool)
      (linked : Option ℕ)
      → Keeps (HasRows rows) (onboard env d group_id role_id semester signed linked)
  unfolding onboard promote_linked promote_profile
  onboard-Keeps env d group_id role_id semester signed none =
      search (row_rules, reject_phone_duplicate-Keeps) depth 20
  onboard-Keeps env d group_id role_id semester signed (some linked_id) = search row_rules depth 20

  resolve_semester-Keeps :
      (env : Env) (a : Approval) → Keeps (HasRows rows) (resolve_semester env a)
  unfolding resolve_semester
  resolve_semester-Keeps env a = search row_rules depth 20

-- The role that an approval found.
abbrev Resolved : Application → ℕ → ℕ → Db → Type 0
Resolved d group_id role_id s =
    (is_allowed_group d group_id ≡ true) × (role_matches_group role_id group_id s.roles ≡ true)

Resolved-at :
    (d : Application) (g r : ℕ) (db : Db) (p : ℕ × ℕ) (s : Db)
    → db ≡ s
    → (g, r) ≡ p
    → is_allowed_group d g ≡ true
    → role_matches_group r g db.roles ≡ true
    → Resolved d p.0 p.1 s
Resolved-at d g r db p s e f h k =
    subst (λ (x : (ℕ × ℕ) × Db). Resolved d x.0.0 x.0.1 x.1) (λ i. (f i, e i)) (h, k)

resolve_role-eq_ok :
    (d : Application) (a : Approval) (s s' : Db) (p : ℕ × ℕ)
    → resolve_role d a s ≡ (ok p, s')
    → Resolved d p.0 p.1 s × (s' ≡ s)
unfolding resolve_role
resolve_role-eq_ok d a s s' p h =
    let (g, s1, e1, h1) = >>=-eq_ok _ _ _ _ _ h in
    let (_, s2, e2, h2) = >>=-eq_ok _ _ _ _ _ h1 in
    let (r, s3, e3, h3) = >>=-eq_ok _ _ _ _ _ h2 in
    let (db, s4, e4, h4) = >>=-eq_ok _ _ _ _ _ h3 in
    let (_, s5, e5, h5) = >>=-eq_ok _ _ _ _ _ h4 in
    let (_, f1) = or_raise-eq_ok _ _ s s1 g e1 in
    let (allowed, f2) = raise_if-eq_ok _ _ s1 s2 _ e2 in
    let (_, f3) = or_raise-eq_ok _ _ s2 s3 r e3 in
    let (matching, f5) = raise_if-eq_ok _ _ s4 s5 _ e5 in
    let (f4, g4) = gets-eq_ok _ s3 s4 db e4 in
    let (f6, g6) = pure-eq_ok (g, r) p s5 s' h5 in
    (
      Resolved-at d g r db p s (f4 ∙ f3 ∙ f2 ∙ f1) f6 (raise_if_not _ allowed)
          (raise_if_not _ matching),
      g6 ∙ f5 ∙ g4 ∙ f3 ∙ f2 ∙ f1,
    )

-- An approval, between the database and the one that it leaves.
pub record Approved (env : Env) (id : ℕ) (d : Application) (volunteer_id : ℕ) (s s' : Db)
    : Type 0 where
  pub group_id : ℕ
  pub role_id : ℕ
  pub was_locked : get_detail id (env.others s).applications ≡ some d
  pub was_trial : same_state d.status trial ≡ true
  pub was_complete : profile_complete d ≡ true
  pub is_allowed : is_allowed_group d group_id ≡ true
  pub has_role : role_matches_group role_id group_id (env.others s).roles ≡ true
  pub is_promoted : get_detail id s'.applications ≡ some (promoted volunteer_id group_id env.now d)
  pub no_event : s'.events ≡ (env.others s).events

get_detail-mark_promoted :
    (id rid v g now : ℕ) (rows : List Application) (d : Application)
    → get_detail id rows ≡ some d
    → rid ≡ d.registration_id
    → get_detail id (mark_promoted rid v g now rows) ≡ some (promoted v g now d)
unfolding get_detail mark_promoted
get_detail-mark_promoted id rid v g now rows d h e =
    find_first-update _ (λ (a : Application). a.registration_id == rid) (promoted v g now) rows d
      (λ a. refl) h ((==_iff d.registration_id rid).1 (sym e))

abbrev mark : ℕ → ℕ → ℕ → ℕ → Db → Db
mark rid v g now db = record db { applications = mark_promoted rid v g now db.applications }

-- What the end of an approval leaves of the applications and the events.
promote_detail-eq_ok :
    (env : Env) (d d' : Application) (a : Approval) (g r semester v : ℕ) (s s' : Db)
    → promote_detail env d a g r semester s ≡ (ok (d', v), s')
    → (d ≡ d')
      × (rows_of s' ≡ (mark_promoted d.registration_id v g env.now s.applications, s.events))
unfolding promote_detail
promote_detail-eq_ok env d d' a g r semester v s s' h =
    let (linked, s1, e1, h1) = >>=-eq_ok _ _ _ _ _ h in
    let (p, s2, e2, h2) = >>=-eq_ok _ _ _ _ _ h1 in
    let (_, s3, e3, h3) = >>=-eq_ok _ _ _ _ _ h2 in
    let f1 = kept (λ rows. known_or_by_email-Keeps d.promoted_volunteer_id d.email) s s1 e1 in
    let f2 = kept (λ rows. onboard-Keeps env d g r semester a.contract_signed linked) s1 s2 e2 in
    let f3 = modify-eq_ok (mark d.registration_id p.0 g env.now) s2 s3 _ e3 in
    let (f4, g4) = pure-eq_ok (d, p.0) (d', v) s3 s' h3 in
    (
      ap (λ q. q.0) f4,
      ap rows_of (g4 ∙ f3)
          ∙ ap
              (λ (q : List Application × List EventRow).
                (mark_promoted d.registration_id p.0 g env.now q.0, q.1))
              (f2 ∙ f1)
          ∙ ap (λ w. (mark_promoted d.registration_id w g env.now s.applications, s.events))
              (ap (λ q. q.1) f4),
    )

-- The steps put together: `s1` is behind the lock, `s3` behind the checks.
Approved-of_steps :
    (env : Env) (id group_id role_id v : ℕ) (d d' : Application) (s s1 s3 s' : Db)
    → get_detail id s1.applications ≡ some d
    → s1 ≡ env.others s
    → same_state d.status trial ≡ true
    → profile_complete d ≡ true
    → role_matches_group role_id group_id s1.roles ≡ true
    → is_allowed_group d group_id ≡ true
    → rows_of s3 ≡ rows_of s1
    → (d ≡ d')
      × (rows_of s'
          ≡ (mark_promoted d.registration_id v group_id env.now s3.applications, s3.events))
    → Approved env id d' v s s'
Approved-of_steps env id group_id role_id v d d' s s1 s3 s' l f1 was complete has allowed f3 p =
    let l' = ap (λ (x : Db). get_detail id x.applications) (sym f1) ∙ l in
    let rows = f3 ∙ ap rows_of f1 in
    subst (λ (x : Application). Approved env id x v s s') p.0
      (record {
        group_id = group_id;
        role_id = role_id;
        was_locked = l';
        was_trial = was;
        was_complete = complete;
        is_allowed = allowed;
        has_role = ap (λ (x : Db). role_matches_group role_id group_id x.roles) (sym f1) ∙ has;
        is_promoted =
            ap (λ q. get_detail id q.0) p.1
            ∙ get_detail-mark_promoted id d.registration_id v group_id env.now s3.applications d
                (ap (λ q. get_detail id q.0) rows ∙ l') refl;
        no_event = ap (λ q. q.1) p.1 ∙ ap (λ q. q.1) rows;
      })

-- An approval that returned found the application, behind the lock, on trial and with a complete
-- profile, for a role of a group that the applicant may join. It leaves the application promoted
-- to a volunteer of that group, and the events as they were.
pub approve_record_sound :
    (env : Env) (id : ℕ) (a : Approval) (s s' : Db) (d : Application) (volunteer_id : ℕ)
    → approve_application_record env id a s ≡ (ok (d, volunteer_id), s')
    → Approved env id d volunteer_id s s'
unfolding approve_application_record
approve_record_sound env id a s s' d volunteer_id h =
    let (d1, s1, e1, h1) = >>=-eq_ok _ _ _ _ _ h in
    let (_, s2, e2, h2) = >>=-eq_ok _ _ _ _ _ h1 in
    let (_, s3, e3, h3) = >>=-eq_ok _ _ _ _ _ h2 in
    let (p, s4, e4, h4) = >>=-eq_ok _ _ _ _ _ h3 in
    let (semester, s5, e5, h5) = >>=-eq_ok _ _ _ _ _ h4 in
    let (locked, f1) = lock_detail-eq_ok env id s s1 d1 e1 in
    let (b2, f2) = raise_if-eq_ok _ _ s1 s2 _ e2 in
    let (b3, f3) = raise_if-eq_ok _ _ s2 s3 _ e3 in
    let (resolved, f4) = resolve_role-eq_ok d1 a s3 s4 p e4 in
    let f5 = kept (λ rows. resolve_semester-Keeps env a) s4 s5 e5 in
    Approved-of_steps env id p.0 p.1 volunteer_id d1 d s s1 s5 s' locked f1 (raise_if_not _ b2)
      (raise_if_not _ b3)
      (ap (λ (x : Db). role_matches_group p.1 p.0 x.roles) (sym (f3 ∙ f2)) ∙ resolved.1) resolved.0
      (f5 ∙ ap rows_of (f4 ∙ f3 ∙ f2))
      (promote_detail-eq_ok env d1 d a p.0 p.1 semester volunteer_id s5 s' h5)
