-- ===== src/Applications/Workflow/Progress.antt =====
-- contact of app/domain/volunteer_applications/workflow.py, step by step, when no other request
-- interferes.
use kvarteret_personal.Prelude.{
  ℕ, ◌≡◌, refl, ap, ◌∙◌, Bool, true, false, Option, none, some, List, [], ◌∷◌, any, find_first,
  ◌==◌, arith, update_where,
}
use kvarteret_personal.Exec.{
  Exec, Result, ok, pure, raise_if, or_raise, gets, continue, ◌>>=◌, ◌>>◌,
}
use kvarteret_personal.Applications.StateMachine.{
  ApplicationState, new, contacted, contact, same_state, Outcome, TransitionResult,
  application_transition, transition_event, text,
}
use kvarteret_personal.Applications.Store.{Db, Application, get_detail}
use kvarteret_personal.Applications.Store.Statements.{
  StatusUpdate, apply_status, has_status, set_application_status, append_domain_event,
}
use kvarteret_personal.Applications.Service.{
  Env, require_detail, lock_detail, check_duplicate, drop_trial_assignment, place_trial,
  write_status, status_update, set_application_status_record,
}
use kvarteret_personal.Applications.Service.Outcomes.{find_first-holds}
use kvarteret_personal.Applications.Service.Status.{get_detail-update, has_status-both}
use kvarteret_personal.Applications.Workflow.{
  World, in_locked, commit, find_detail, append_event, append_result, enqueue_for, dispatch_if,
  change_status, plain_change, with_actor, add_payload, map_event,
}

>>=-ok :
    {S E A B : Type 0} (m : Exec S E A) (f : A → Exec S E B) (s s' : S) (a : A) (r : Result E B × S)
    → m s ≡ (ok a, s')
    → f a s' ≡ r
    → (m >>= f) s ≡ r
unfolding ◌>>=◌
>>=-ok m f s s' a r e g = ap (λ p. continue p.0 f p.1) e ∙ g

same_state_refl : (s : ApplicationState) → same_state s s ≡ true
same_state_refl s = ground arith

any-find_first :
    {A : Type 0} (p q : A → Bool) (rows : List A) (x : A)
    → find_first p rows ≡ some x
    → q x ≡ true
    → any q rows ≡ true
any-find_first p q [] x h k = cc
any-find_first p q (a ∷ rows) x h k = ground (arith, any-find_first p q rows x)

lock_detail_alone :
    (env : Env) (id : ℕ) (s : Db) (old : Application)
    → env.others s ≡ s
    → get_detail id s.applications ≡ some old
    → lock_detail env id s ≡ (ok old, s)
unfolding lock_detail require_detail ◌>>=◌
lock_detail_alone env id s old alone e = rw (e, alone) (rw e refl)

abbrev contacting_update : Application → StatusUpdate
contacting_update old =
    status_update contacted false
      (old.promoted_volunteer_id, old.trial_assignment_id, old.owns_volunteer_profile)

abbrev contacted_db : Env → ℕ → Application → Db → Db
contacted_db env id old s = record s {
  applications =
      update_where (has_status id old.status) (apply_status (contacting_update old) env.now)
        s.applications;
}

not_reopened :
    (old : Application) (s : Db)
    → old.status ≡ new
    → check_duplicate old contacted false s ≡ (ok tt, s)
unfolding check_duplicate ◌>>=◌
not_reopened old s h = rw h refl

write_status_found :
    (env : Env) (id : ℕ) (old : Application) (s : Db)
    → get_detail id s.applications ≡ some old
    → write_status env id (contacting_update old) old.status s ≡ (ok tt, contacted_db env id old s)
unfolding write_status set_application_status get_detail
write_status_found env id old s e =
    rw
      (any-find_first (λ (a : Application). a.registration_id == id) (has_status id old.status)
        s.applications old e
        (has_status-both id old.status old
          (find_first-holds (λ (a : Application). a.registration_id == id)
            (has_status id old.status) (λ a. a) s.applications old e)
          (same_state_refl old.status)))
      refl

require_detail_found :
    (id : ℕ) (s : Db) (d : Application)
    → get_detail id s.applications ≡ some d
    → require_detail id s ≡ (ok d, s)
unfolding require_detail ◌>>=◌
require_detail_found id s d e = rw e refl

set_contacted :
    (env : Env) (id : ℕ) (s : Db) (old : Application)
    → env.others s ≡ s
    → get_detail id s.applications ≡ some old
    → old.status ≡ new
    → set_application_status_record env id contacted old.status false s
      ≡ (ok (apply_status (contacting_update old) env.now old), contacted_db env id old s)
unfolding set_application_status_record raise_if drop_trial_assignment place_trial pure
set_contacted env id s old alone e is_new =
    >>=-ok _ _ s s old _ (lock_detail_alone env id s old alone e) (
      >>=-ok _ _ s s tt _ (rw (same_state_refl old.status) refl) (
        >>=-ok _ _ s s tt _ refl (
          >>=-ok _ _ s s tt _ (not_reopened old s is_new) (
            >>=-ok _ _ s s tt _ refl (
              >>=-ok _ _ s s _ _ refl (
                >>=-ok _ _ s (contacted_db env id old s) tt _ (write_status_found env id old s e) (
                  require_detail_found id (contacted_db env id old s)
                    (apply_status (contacting_update old) env.now old)
                    (get_detail-update id (contacting_update old) old.status env.now s.applications
                      old e (same_state_refl old.status)))))))))

abbrev contact_result : Option ℕ → TransitionResult
contact_result actor = record {
  new_state = contacted;
  event = some (transition_event "application_contacted" new (with_actor actor));
}

contact_allowed :
    (s : ApplicationState) (actor : Option ℕ)
    → s ≡ new
    → application_transition s contact (with_actor actor) ≡ Outcome.ok (contact_result actor)
unfolding application_transition
contact_allowed s actor h = rw h refl

-- The world that contacting the applicant leaves.
abbrev pub contacted_world : Env → ℕ → Option ℕ → Application → World → World
contacted_world env id actor old w =
    let db =
      (append_domain_event
        (add_payload "new_state" (text "contacted")
          (transition_event "application_contacted" new (with_actor actor)))
        id (contacted_db env id old w.session)).1 in
    record w { session = db; durable = db }

append_contacted :
    (env : Env) (id : ℕ) (actor : Option ℕ) (old : Application) (w : World)
    → append_result
        (map_event (add_payload "new_state" (text "contacted")) (contact_result actor).event)
        id
        (record w { session = contacted_db env id old w.session })
      ≡ (
        ok (some w.session.next_event_id),
        record w { session = (contacted_world env id actor old w).session },
      )
unfolding append_result append_event append_domain_event ◌>>=◌
append_contacted env id actor old w = refl

end_contacted :
    (env : Env) (id : ℕ) (actor : Option ℕ) (old : Application) (w : World)
    → let d = apply_status (contacting_update old) env.now old in
      (enqueue_for env 0 none d (some w.session.next_event_id)
          >> (commit >> (dispatch_if env none >> pure d)))
        (record w { session = (contacted_world env id actor old w).session })
      ≡ (ok d, contacted_world env id actor old w)
unfolding enqueue_for commit dispatch_if ◌>>=◌
end_contacted env id actor old w = refl

-- Contacting an applicant whose application is new returns, if no other request writes to the
-- database while this one waits for the lock, and what it leaves is durable.
pub contact_completes :
    (env : Env) (id : ℕ) (actor : Option ℕ) (w : World) (old : Application)
    → env.others w.session ≡ w.session
    → get_detail id w.session.applications ≡ some old
    → old.status ≡ new
    → plain_change contact env id actor w
      ≡ (ok (apply_status (contacting_update old) env.now old), contacted_world env id actor old w)
unfolding change_status find_detail gets or_raise pure in_locked
contact_completes env id actor w old alone e is_new =
    let waited : World = record w { durable = env.others w.durable } in
    let w4 : World = record waited { session = contacted_db env id old w.session } in
    >>=-ok _ _ w w (some old) _ (rw e refl) (
      >>=-ok _ _ w w old _ refl (
        >>=-ok _ _ w w (contact_result actor) _ (rw (contact_allowed old.status actor is_new) refl)
          (>>=-ok _ _ w w4 (apply_status (contacting_update old) env.now old) _
            (ap (λ p. (p.0, record waited { session = p.1 }))
              (set_contacted env id w.session old alone e is_new))
            (>>=-ok _ _ w4
              (record waited { session = (contacted_world env id actor old w).session })
              (some w.session.next_event_id) _ (append_contacted env id actor old waited)
              (end_contacted env id actor old waited)))))
