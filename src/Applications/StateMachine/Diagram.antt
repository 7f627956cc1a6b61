-- ===== src/Applications/StateMachine/Diagram.antt =====
-- The lifecycle of state_machine.py as a relation, beside the transition table.
use kvarteret_personal.Prelude.{◌↔◌, some, ◌≡◌, refl, true, arith, ◌≢◌}
use kvarteret_personal.Applications.StateMachine.{
  ApplicationState, transition_event, DomainEventRecord, ApplicationAction, TransitionContext,
  TransitionResult, ok, err, application_transition, key_error, new, contacted, trial, volunteer,
  not_volunteer, submit_profile, resend_invitation, contact, start_trial, promote, reject, reopen,
  restore_volunteer, delete,
}

-- The arrows of the lifecycle, and the two kinds of arrow that stay in place.
pub data Arrow : ApplicationState → ApplicationAction → ApplicationState → Type 0 where
  contacting : Arrow new contact contacted
  starting : Arrow contacted start_trial trial
  promoting : Arrow trial promote volunteer
  rejecting : (s : ApplicationState) → s ≢ not_volunteer → Arrow s reject not_volunteer
  reopening : Arrow not_volunteer reopen contacted
  restoring : Arrow not_volunteer restore_volunteer volunteer
  submitting : (s : ApplicationState) → s ≢ not_volunteer → Arrow s submit_profile s
  resending_new : Arrow new resend_invitation new
  resending_contacted : Arrow contacted resend_invitation contacted
  deleting : Arrow new delete new

-- What the context must say: only a promotion asks for a complete profile.
abbrev pub Allows : TransitionContext → ApplicationAction → Type 0
Allows ctx a = a ≡ promote → ctx.has_complete_profile ≡ true

ruleset arrows = (
  contacting, starting, promoting, reopening, restoring, resending_new, resending_contacted,
  deleting, rejecting, submitting,
)

-- A transition that succeeds is an arrow of the diagram, and its context allowed it.
pub transition-Arrow :
    (s : ApplicationState) (a : ApplicationAction) (ctx : TransitionContext) {r : TransitionResult}
    → application_transition s a ctx ≡ ok r
    → Arrow s a r.new_state × Allows ctx a
unfolding application_transition
transition-Arrow s a ctx h = (grind (arith, arrows), ground arith)

submitting-transition :
    (s : ApplicationState) (ctx : TransitionContext)
    → s ≢ not_volunteer
    → (e : DomainEventRecord) × (application_transition s submit_profile ctx
        ≡ ok (record { new_state = s; event = some e }))
unfolding application_transition
submitting-transition not_volunteer ctx ne = absurd (ne refl)
submitting-transition trial ctx ne = (_, refl)
submitting-transition volunteer ctx ne = (_, refl)
submitting-transition _ ctx ne = (_, refl)

-- The state that an arrow leads to, with the audit event that the transition emits.
pub Arrow-transition :
    (s t : ApplicationState) (a : ApplicationAction) (ctx : TransitionContext)
    → Arrow s a t
    → Allows ctx a
    → (e : DomainEventRecord) × (application_transition s a ctx
        ≡ ok (record { new_state = t; event = some e }))
unfolding application_transition
Arrow-transition s t a ctx contacting h = (_, refl)
Arrow-transition s t a ctx starting h = (_, refl)
Arrow-transition s t a ctx promoting h =
    (transition_event "application_approved" trial ctx, ground (arith, h refl))
Arrow-transition s t a ctx reopening h = (_, refl)
Arrow-transition s t a ctx restoring h = (_, refl)
Arrow-transition s t a ctx resending_new h = (_, refl)
Arrow-transition s t a ctx resending_contacted h = (_, refl)
Arrow-transition s t a ctx deleting h = (_, refl)
Arrow-transition s t a ctx (rejecting _ ne) h =
    (transition_event "application_rejected" s ctx, ground arith)
Arrow-transition s t a ctx (submitting _ ne) h = submitting-transition s ctx ne

-- An action leads from a state to another, with some audit event, exactly when the diagram has the
-- arrow and the context allows it.
pub transition-iff-Arrow :
    (s t : ApplicationState) (a : ApplicationAction) (ctx : TransitionContext)
    → ((e : DomainEventRecord) × (application_transition s a ctx
          ≡ ok (record { new_state = t; event = some e })))
      ↔ (Arrow s a t × Allows ctx a)
transition-iff-Arrow s t a ctx =
    (λ p. transition-Arrow s a ctx p.1, λ p. Arrow-transition s t a ctx p.0 p.1)

-- The lookup of the event type never fails.
pub transition-ne-key_error :
    (s : ApplicationState) (a : ApplicationAction) (ctx : TransitionContext)
    → application_transition s a ctx ≢ err key_error
unfolding application_transition
transition-ne-key_error s a ctx h = ground arith
