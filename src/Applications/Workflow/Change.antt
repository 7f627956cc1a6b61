-- ===== src/Applications/Workflow/Change.antt =====
-- _change_status of app/domain/volunteer_applications/workflow.py: what a change of status that
-- returned has made durable.
use kvarteret_personal.Prelude.{
  ℕ, ◌≡◌, sym, ◌∙◌, ap, subst, Bool, true, Option, none, some, [], ◌∷◌, ◌++◌, arith,
}
use kvarteret_personal.Exec.{ok, pure, raise, gets, modify, ◌>>=◌, >>=-eq_ok}
use kvarteret_personal.EmailDelivery.{Template}
use kvarteret_personal.Applications.StateMachine.{
  ApplicationState, ApplicationAction, TransitionResult, Outcome, DomainEventRecord,
  TransitionContext, text, value, same_state, application_transition,
}
use kvarteret_personal.Applications.StateMachine.Diagram.{Arrow, transition-Arrow, Arrow-transition}
use kvarteret_personal.Applications.Store.{Db, Application, EventRow, get_detail}
use kvarteret_personal.Applications.Store.Statements.{append_domain_event}
use kvarteret_personal.Applications.Service.{Env, Error, DbExec}
use kvarteret_personal.Applications.Service.Steps.{rows_of}
use kvarteret_personal.Applications.Service.Status.{Changed, status-Changed}
use kvarteret_personal.Applications.Service.Outcomes.{or_raise-eq_ok}
use kvarteret_personal.Applications.Workflow.{
  World, in_locked, dispatch_best_effort, dispatch_session, commit, find_detail, append_event,
  enqueue_email, append_result, enqueue_for, dispatch_if, to_flow, with_actor, map_event,
  add_payload, change_status,
}

-- The row of the audit log for a change to this status.
abbrev pub audit_row : ℕ → ℕ → ApplicationState → DomainEventRecord → EventRow
audit_row k id status event = record {
  id = k;
  subject_id = id;
  event = add_payload "new_state" (text (value status)) event;
}

-- A change of status, between the world before it and the world that it leaves.
pub record Transitioned (env : Env) (id : ℕ) (a : ApplicationAction) (actor : Option ℕ)
    (d : Application) (w w' : World) : Type 0 where
  pub old : Application
  pub event : DomainEventRecord
  pub event_id : ℕ
  pub was_locked : get_detail id (env.others w.session).applications ≡ some old
  pub is_arrow : Arrow old.status a d.status
  pub is_durable : get_detail id w'.durable.applications ≡ some d
  pub is_emitted :
      application_transition old.status a (with_actor actor)
      ≡ Outcome.ok (record { new_state = d.status; event = some event })
  pub is_audited :
      w'.durable.events ≡ (env.others w.session).events ++ audit_row event_id id d.status event ∷ []

same_state_sound : (s t : ApplicationState) → same_state s t ≡ true → s ≡ t
same_state_sound s t h = ground arith

find_detail-eq_ok :
    (id : ℕ) (w w' : World) (o : Option Application)
    → find_detail id w ≡ (ok o, w')
    → (o ≡ get_detail id w.session.applications) × (w' ≡ w)
unfolding find_detail gets
find_detail-eq_ok id w w' o h = (cc, cc)

to_flow-eq_ok :
    (o : Outcome TransitionResult) (w w' : World) (r : TransitionResult)
    → to_flow o w ≡ (ok r, w')
    → (o ≡ Outcome.ok r) × (w' ≡ w)
unfolding pure raise
to_flow-eq_ok (Outcome.ok q) w w' r h = (cc, cc)
to_flow-eq_ok (Outcome.err e) w w' r h = cc

in_locked-eq_ok :
    {A : Type 0} (env : Env) (m : DbExec A) (w w' : World) (a : A)
    → in_locked env m w ≡ (ok a, w')
    → m w.session ≡ (ok a, w'.session)
unfolding in_locked
in_locked-eq_ok env m w w' a h = λ i. ((h i).0, (h i).1.session)

append_result-eq_ok :
    (f : DomainEventRecord → DomainEventRecord) (e : DomainEventRecord) (id : ℕ) (w w' : World)
    (o : Option ℕ)
    → append_result (map_event f (some e)) id w ≡ (ok o, w')
    → rows_of w'.session ≡ (
      w.session.applications,
      w.session.events
          ++ record { id = w.session.next_event_id; subject_id = id; event = f e } ∷ [],
    )
unfolding append_result append_event append_domain_event ◌>>=◌
append_result-eq_ok f e id w w' o h = ap (λ p. rows_of p.1.session) (sym h)

enqueue_for-eq_ok :
    (env : Env) (delivery_id : ℕ) (t : Option Template) (d : Application) (o : Option ℕ)
    (w w' : World) (u : Unit {0})
    → enqueue_for env delivery_id t d o w ≡ (ok u, w')
    → rows_of w'.session ≡ rows_of w.session
unfolding enqueue_for enqueue_email modify pure raise
enqueue_for-eq_ok env delivery_id none d o w w' u h = ap (λ p. rows_of p.1.session) (sym h)
enqueue_for-eq_ok env delivery_id (some t) d none w w' u h = cc
enqueue_for-eq_ok env delivery_id (some t) d (some k) w w' u h =
    ap (λ p. rows_of p.1.session) (sym h)

commit-eq_ok :
    (w w' : World) (u : Unit {0})
    → commit w ≡ (ok u, w')
    → (w'.durable ≡ w.session) × (w'.session ≡ w.session)
unfolding commit
commit-eq_ok w w' u h = (ap (λ p. p.1.durable) (sym h), ap (λ p. p.1.session) (sym h))

-- The dispatcher writes to the queue only, and nothing is lost that was durable before.
dispatch_if-eq_ok :
    (env : Env) (t : Option Template) (w w' : World) (u : Unit {0}) (s : Db)
    → (w.durable ≡ s) × (w.session ≡ s)
    → dispatch_if env t w ≡ (ok u, w')
    → rows_of w'.durable ≡ rows_of s
unfolding dispatch_if dispatch_best_effort dispatch_session pure
dispatch_if-eq_ok env none w w' u s c h = ap (λ p. rows_of p.1.durable) (sym h) ∙ ap rows_of c.0
dispatch_if-eq_ok env (some t) w w' u s c h = ap (λ p. rows_of p.1.durable) (sym h) ∙ ap rows_of c.1

pure-eq_ok :
    (d d' : Application) (w w' : World) → pure {E = Error} d w ≡ (ok d', w') → (d ≡ d') × (w' ≡ w)
unfolding pure
pure-eq_ok d d' w w' h = (cc, cc)

ok_inj : {q r : TransitionResult} → Outcome.ok q ≡ Outcome.ok r → q ≡ r
ok_inj h = cc

transition-emits :
    (s : ApplicationState) (a : ApplicationAction) (ctx : TransitionContext) (r : TransitionResult)
    → application_transition s a ctx ≡ Outcome.ok r
    → (e : DomainEventRecord) × (r ≡ record { new_state = r.new_state; event = some e })
transition-emits s a ctx r h =
    let (arrow, allowed) = transition-Arrow s a ctx h in
    let (e, p) = Arrow-transition s r.new_state a ctx arrow allowed in (e, ok_inj (sym h ∙ p))

-- From the state before the change to the state behind the lock, which is the same.
module _ (env : Env) (id : ℕ) (a : ApplicationAction) (actor : Option ℕ) (starts : Bool) where
  transitioned :
      (seen : Application) (r : TransitionResult) (event : DomainEventRecord) (d : Application)
      (w w' : World) (s : Db) (k : ℕ)
      → application_transition seen.status a (with_actor actor) ≡ Outcome.ok r
      → r ≡ record { new_state = r.new_state; event = some event }
      → Changed env id r.new_state seen.status starts d w.session s
      → rows_of w'.durable ≡ (s.applications, s.events ++ audit_row k id r.new_state event ∷ [])
      → Transitioned env id a actor d w w'
  transitioned seen r event d w w' s k t re c rows =
      let same = same_state_sound c.old.status seen.status c.was_expected in
      let now : d.status ≡ r.new_state = ap (λ (x : Application). x.status) c.has_changed in
      let emitted =
        ap (λ x. application_transition x a (with_actor actor)) same ∙ t ∙ ap Outcome.ok re in
      record {
        old = c.old;
        event = event;
        event_id = k;
        was_locked = c.was_locked;
        is_arrow = rw now (transition-Arrow c.old.status a (with_actor actor) emitted).0;
        is_durable = ap (λ p. get_detail id p.0) rows ∙ c.is_stored;
        is_emitted = rw now emitted;
        is_audited = rw now (
            ap (λ p. p.1) rows ∙ ap (λ es. es ++ audit_row k id r.new_state event ∷ []) c.no_event);
      }

emitted_result :
    (r : TransitionResult) (e : DomainEventRecord) (id : ℕ) (w w' : World) (o : Option ℕ)
    → r ≡ record { new_state = r.new_state; event = some e }
    → append_result (map_event (add_payload "new_state" (text (value r.new_state))) r.event) id w
      ≡ (ok o, w')
    → rows_of w'.session ≡ (
      w.session.applications,
      w.session.events ++ audit_row w.session.next_event_id id r.new_state e ∷ [],
    )
emitted_result r e id w w' o re h =
    append_result-eq_ok (add_payload "new_state" (text (value r.new_state))) e id w w' o (
      sym (
        ap
          (λ (x : TransitionResult).
            append_result (map_event (add_payload "new_state" (text (value r.new_state))) x.event)
              id w)
          re)
      ∙ h)

moved :
    {env : Env} {id : ℕ} {status expected : ApplicationState} {starts : Bool} (d d' : Application)
    (s t t' : Db)
    → d ≡ d'
    → t ≡ s
    → Changed env id status expected starts d t t'
    → Changed env id status expected starts d' s t'
moved {env} {id} {status} {expected} {starts} d d' s t t' p q c =
    subst (λ (x : Application × Db). Changed env id status expected starts x.0 x.1 t')
      (λ i. (p i, q i)) c

-- A change of status that returns has made one arrow of the lifecycle durable, starting from the
-- row as it is behind the lock, whatever the other requests did while this one waited for it. The
-- durable events are those from behind the lock and one more, of the transition that was made,
-- with the new state in its payload.
pub change_status_sound :
    (env : Env) (delivery_id id : ℕ) (a : ApplicationAction) (actor : Option ℕ) (starts : Bool)
    (t : Option Template) (w w' : World) (d : Application)
    → change_status env delivery_id id a actor starts t w ≡ (ok d, w')
    → Transitioned env id a actor d w w'
unfolding change_status
change_status_sound env delivery_id id a actor starts t w w' d h =
    let (found, w1, e1, h1) = >>=-eq_ok _ _ _ _ _ h in
    let (seen, w2, e2, h2) = >>=-eq_ok _ _ _ _ _ h1 in
    let (r, w3, e3, h3) = >>=-eq_ok _ _ _ _ _ h2 in
    let (d', w4, e4, h4) = >>=-eq_ok _ _ _ _ _ h3 in
    let (event_id, w5, e5, h5) = >>=-eq_ok _ _ _ _ _ h4 in
    let (_, w6, e6, h6) = >>=-eq_ok _ _ _ _ _ h5 in
    let (_, w7, e7, h7) = >>=-eq_ok _ _ _ _ _ h6 in
    let (_, w8, e8, h8) = >>=-eq_ok _ _ _ _ _ h7 in
    let (_, f1) = find_detail-eq_ok id w w1 found e1 in
    let (_, f2) = or_raise-eq_ok found _ w1 w2 seen e2 in
    let (made, f3) = to_flow-eq_ok _ w2 w3 r e3 in
    let (event, re) = transition-emits seen.status a (with_actor actor) r made in
    let f5 = emitted_result r event id w4 w5 event_id re e5 in
    let f6 = enqueue_for-eq_ok env delivery_id t d' event_id w5 w6 _ e6 in
    let f7 = commit-eq_ok w6 w7 _ e7 in
    let f8 = dispatch_if-eq_ok env t w7 w8 _ w6.session f7 e8 in
    let (same, f9) = pure-eq_ok d' d w8 w' h8 in
    let changed =
      status-Changed env id r.new_state seen.status starts d' w3.session w4.session
        (in_locked-eq_ok env _ w3 w4 d' e4) in
    transitioned env id a actor starts seen r event d w w' w4.session w4.session.next_event_id made
      re
      (moved d' d w.session w3.session w4.session same
        (ap (λ (x : World). x.session) (f3 ∙ f2 ∙ f1)) changed)
      (ap (λ (x : World). rows_of x.durable) f9 ∙ f8 ∙ f6 ∙ f5)
