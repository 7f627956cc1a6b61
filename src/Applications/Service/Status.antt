-- ===== src/Applications/Service/Status.antt =====
-- set_application_status_record of app/domain/volunteer_applications/service.py.
use kvarteret_personal.Prelude.{
  update_where, ℕ, ◌≡◌, refl, sym, ◌∙◌, ap, Bool, true, false, not, ◌&&◌, some, List, ◌==◌,
  if◌then◌else◌,
}
use kvarteret_personal.Exec.{Result, ok, err, >>=-eq_ok}
use kvarteret_personal.Applications.StateMachine.{ApplicationState, contacted, same_state}
use kvarteret_personal.Applications.Store.{Db, Application, get_detail}
use kvarteret_personal.Applications.Store.Statements.{
  StatusUpdate, apply_status, has_status, set_application_status,
}
use kvarteret_personal.Applications.Service.{
  Env, Error, Placement, status_update, write_status, set_application_status_record,
}
use kvarteret_personal.Applications.Service.Steps.{
  rows_of, check_duplicate-Keeps, drop_trial_assignment-Keeps, place_trial-Keeps,
}
use kvarteret_personal.Applications.Service.Outcomes.{
  raise_if-eq_ok, require_detail-eq_ok, lock_detail-eq_ok, find_first-holds, find_first-update,
  kept, raise_if_not,
}

abbrev pure_at : Result Error (Unit {0}) → Db → Result Error (Unit {0}) × Db
pure_at r s = (r, s)

write_checked :
    (updated : Bool) (rows : List Application) (e : Error) (s s' : Db) (u : Unit {0})
    → (if not updated
        then pure_at (err e) s
        else pure_at (ok tt) (record s { applications = rows }))
      ≡ (ok u, s')
    → rows_of s' ≡ (rows, s.events)
write_checked true rows e s s' u h = ap (λ p. rows_of p.1) (sym h)
write_checked false rows e s s' u h = cc

write_status-eq_ok :
    (env : Env) (id : ℕ) (c : StatusUpdate) (expected : ApplicationState) (s s' : Db) (u : Unit {0})
    → write_status env id c expected s ≡ (ok u, s')
    → rows_of s'
      ≡ (update_where (has_status id expected) (apply_status c env.now) s.applications, s.events)
unfolding write_status set_application_status
write_status-eq_ok env id c expected s s' u h = write_checked _ _ _ s s' u h

pub has_status-both :
    (id : ℕ) (expected : ApplicationState) (a : Application)
    → (a.registration_id == id) ≡ true
    → same_state a.status expected ≡ true
    → has_status id expected a ≡ true
has_status-both id expected a h k = rw (h, k) refl

pub get_detail-update :
    (id : ℕ) (c : StatusUpdate) (expected : ApplicationState) (now : ℕ) (rows : List Application)
    (old : Application)
    → get_detail id rows ≡ some old
    → same_state old.status expected ≡ true
    → get_detail id (update_where (has_status id expected) (apply_status c now) rows)
      ≡ some (apply_status c now old)
unfolding get_detail
get_detail-update id c expected now rows old h k =
    find_first-update _ _ _ rows old (λ a. refl) h
      (has_status-both id expected old
        (find_first-holds (λ (a : Application). a.registration_id == id) (has_status id expected)
          (apply_status c now) rows old h)
        k)

-- A change of status, between the database behind the lock and the one that it leaves.
pub record Changed (env : Env) (id : ℕ) (status expected : ApplicationState) (starts : Bool)
    (d : Application) (s s' : Db) : Type 0 where
  pub old : Application
  pub placement : Placement
  pub was_locked : get_detail id (env.others s).applications ≡ some old
  pub was_expected : same_state old.status expected ≡ true
  pub was_contacted : starts ≡ true → same_state old.status contacted ≡ true
  pub has_changed : d ≡ apply_status (status_update status starts placement) env.now old
  pub is_stored : get_detail id s'.applications ≡ some d
  pub only_one :
      s'.applications
      ≡ update_where
          (has_status id expected)
          (apply_status (status_update status starts placement) env.now)
          (env.others s).applications
  pub no_event : s'.events ≡ (env.others s).events

starts_contacted : (starts b : Bool) → (starts && not b) ≡ false → starts ≡ true → b ≡ true
starts_contacted true b h k = raise_if_not b h
starts_contacted false b h k = cc

some_inj : {a b : Application} → some a ≡ some b → a ≡ b
some_inj h = cc

-- The steps put together: `s1` is behind the lock, `s6` before the write and `s7` behind it.
change_of_steps :
    (env : Env) (id : ℕ) (status expected : ApplicationState) (starts : Bool)
    (placement : Placement) (old d : Application) (s s1 s6 s7 s' : Db)
    → get_detail id s1.applications ≡ some old
    → s1 ≡ env.others s
    → same_state old.status expected ≡ true
    → (starts ≡ true → same_state old.status contacted ≡ true)
    → rows_of s6 ≡ rows_of s1
    → rows_of s7 ≡ (
      update_where
          (has_status id expected)
          (apply_status (status_update status starts placement) env.now)
          s6.applications,
      s6.events,
    )
    → get_detail id s7.applications ≡ some d
    → s' ≡ s7
    → Changed env id status expected starts d s s'
change_of_steps env id status expected starts placement old d s s1 s6 s7 s' l f1 was contacts f6 f7
      g f8 =
    let c = status_update status starts placement in
    let kept_rows = ap (λ p. p.0) f6 ∙ ap (λ (x : Db). x.applications) f1 in
    let new_rows =
      ap (λ p. p.0) f7
      ∙ ap (update_where (has_status id expected) (apply_status c env.now)) kept_rows in
    let l' = ap (λ (x : Db). get_detail id x.applications) (sym f1) ∙ l in
    record {
      old = old;
      placement = placement;
      was_locked = l';
      was_expected = was;
      was_contacted = contacts;
      has_changed = some_inj (
          sym g
          ∙ ap (get_detail id) new_rows
          ∙ get_detail-update id c expected env.now (env.others s).applications old l' was);
      is_stored = ap (λ (x : Db). get_detail id x.applications) f8 ∙ g;
      only_one = ap (λ (x : Db). x.applications) f8 ∙ new_rows;
      no_event =
          ap (λ (x : Db). x.events) f8
          ∙ ap (λ p. p.1) f7
          ∙ ap (λ p. p.1) f6
          ∙ ap (λ (x : Db). x.events) f1;
    }

-- The call returned: what it changed, whatever the other requests did while it waited.
pub status-Changed :
    (env : Env) (id : ℕ) (status expected : ApplicationState) (starts : Bool) (d : Application)
    (s s' : Db)
    → set_application_status_record env id status expected starts s ≡ (ok d, s')
    → Changed env id status expected starts d s s'
unfolding set_application_status_record
status-Changed env id status expected starts d s s' h =
    let (old, s1, e1, h1) = >>=-eq_ok _ _ _ _ _ h in
    let (_, s2, e2, h2) = >>=-eq_ok _ _ _ _ _ h1 in
    let (_, s3, e3, h3) = >>=-eq_ok _ _ _ _ _ h2 in
    let (_, s4, e4, h4) = >>=-eq_ok _ _ _ _ _ h3 in
    let (_, s5, e5, h5) = >>=-eq_ok _ _ _ _ _ h4 in
    let (placement, s6, e6, h6) = >>=-eq_ok _ _ _ _ _ h5 in
    let (_, s7, e7, h7) = >>=-eq_ok _ _ _ _ _ h6 in
    let (locked, f1) = lock_detail-eq_ok env id s s1 old e1 in
    let (b2, f2) = raise_if-eq_ok _ _ s1 s2 _ e2 in
    let (b3, f3) = raise_if-eq_ok _ _ s2 s3 _ e3 in
    let f4 = kept (λ rows. check_duplicate-Keeps old status starts) s3 s4 e4 in
    let f5 = kept (λ rows. drop_trial_assignment-Keeps old status) s4 s5 e5 in
    let f6 = kept (λ rows. place_trial-Keeps env old starts) s5 s6 e6 in
    let f7 = write_status-eq_ok env id _ expected s6 s7 _ e7 in
    let (stored, f8) = require_detail-eq_ok id s7 s' d h7 in
    change_of_steps env id status expected starts placement old d s s1 s6 s7 s' locked f1
      (raise_if_not _ b2) (starts_contacted starts _ b3) (f6 ∙ f5 ∙ f4 ∙ ap rows_of (f3 ∙ f2)) f7
      stored f8
