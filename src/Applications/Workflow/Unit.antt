-- ===== src/Applications/Workflow/Unit.antt =====
-- How a flow of workflow.py treats the transaction: what may stand before its commit, what may
-- stand behind it, and the flows made of the two.
use kvarteret_personal.Prelude.{
  ℕ, ◌≡◌, refl, sym, ◌∙◌, Bool, true, false, Option, none, some, List, All, All-append,
}
use kvarteret_personal.Exec.{
  Result, ok, err, pure, raise, gets, or_raise, modify, raise_if, continue, ◌>>=◌,
}
use kvarteret_personal.EmailDelivery.{Template}
use kvarteret_personal.Applications.StateMachine.{TransitionResult, Outcome, DomainEventRecord}
use kvarteret_personal.Applications.Store.{Db, Application}
use kvarteret_personal.Applications.Service.{Env, Error, DbExec}
use kvarteret_personal.Applications.Workflow.{
  World, Flow, Fired, Effect, in_session, commit, fire, find_detail, append_event, enqueue_email,
  append_result, enqueue_for, dispatch_if, to_flow, in_locked, dispatch_best_effort,
}
use kvarteret_personal.Applications.Workflow.Calls.{enqueue_resent}

-- No effect ran while the session held writes that could still be rolled back.
abbrev pub FiredClean : World → Type 0
FiredClean w = All (λ (f : Fired). f.session ≡ f.durable) w.fired

-- A database, and what the other requests make of it in so many waits for a lock.
pub data OnlyOthers (others : Db → Db) : Db → Db → Type 0 where
  no_wait : (db : Db) → OnlyOthers others db db
  wait : (db db' : Db) → OnlyOthers others (others db) db' → OnlyOthers others db db'

only_trans :
    (others : Db → Db) (a b c : Db)
    → OnlyOthers others a b
    → OnlyOthers others b c
    → OnlyOthers others a c
only_trans others a b c (no_wait db) q = q
only_trans others a b c (wait db db' p) q = wait a c (only_trans others (others a) b c p q)

module _ (env : Env) where
  -- What is durable has changed by the other requests only, and no effect ran.
  abbrev pub Untouched : Db → List Fired → World → Type 0
  Untouched d fs w = OnlyOthers env.others d w.durable × (w.fired ≡ fs)

  untouched : (w : World) → Untouched w.durable w.fired w
  untouched w = (no_wait w.durable, refl)

  module _ {A : Type 0} where
    -- What a unit of work has done, by how it ended: all of the session is durable, or nothing
    -- durable has changed but by the other requests, and no effect ran.
    abbrev pub Ended : World → Result Error A → World → Type 0
    Ended w (ok _) w' = (w'.durable ≡ w'.session) × FiredClean w'
    Ended w (err _) w' = Untouched w.durable w.fired w'

    abbrev StillCommitted : Result Error A → World → Type 0
    StillCommitted (ok _) w' = (w'.durable ≡ w'.session) × FiredClean w'
    StillCommitted (err _) w' = ⊥

    pub record IsUnit (m : Flow A) : Type 0 where
      pub at : (w : World) → FiredClean w → Ended w (m w).0 (m w).1

    -- What may stand behind the commit: it never raises and writes nothing to the session.
    pub record IsTail (m : Flow A) : Type 0 where
      pub at : (w : World) → w.durable ≡ w.session → FiredClean w → StillCommitted (m w).0 (m w).1

    -- What may stand before the commit.
    pub record IsQuiet (m : Flow A) : Type 0 where
      pub at : (w : World) → Untouched w.durable w.fired (m w).1

    pub IsTail-pure : (a : A) → IsTail (pure a)
    unfolding pure
    IsTail-pure a = record { at = λ w c h. (c, h) }

    pub IsQuiet-pure : (a : A) → IsQuiet (pure a)
    unfolding pure
    IsQuiet-pure a = record { at = λ w. untouched w }

    pub IsQuiet-raise : (e : Error) → IsQuiet (raise {A = A} e)
    unfolding raise
    IsQuiet-raise e = record { at = λ w. untouched w }

    pub IsQuiet-gets : (f : World → A) → IsQuiet (gets f)
    unfolding gets
    IsQuiet-gets f = record { at = λ w. untouched w }

    pub IsQuiet-or_raise : (o : Option A) (e : Error) → IsQuiet (or_raise o e)
    unfolding or_raise
    IsQuiet-or_raise none e = record { at = λ w. untouched w }
    IsQuiet-or_raise (some a) e = record { at = λ w. untouched w }

    pub IsQuiet-in_session : (m : DbExec A) → IsQuiet (in_session m)
    unfolding in_session
    IsQuiet-in_session m = record { at = λ w. untouched w }

    pub IsQuiet-in_locked : (m : DbExec A) → IsQuiet (in_locked env m)
    unfolding in_locked
    IsQuiet-in_locked m = record {
      at = λ w. (wait w.durable (env.others w.durable) (no_wait (env.others w.durable)), refl);
    }

  pub IsQuiet-raise_if : (b : Bool) (e : Error) → IsQuiet (raise_if b e)
  unfolding raise_if
  IsQuiet-raise_if true e = record { at = λ w. untouched w }
  IsQuiet-raise_if false e = record { at = λ w. untouched w }

  pub IsTail-dispatch_best_effort : IsTail (dispatch_best_effort env)
  unfolding dispatch_best_effort
  IsTail-dispatch_best_effort = record {
    at = λ w c h. (refl, All-append (λ (f : Fired). f.session ≡ f.durable) w.fired _ h (sym c, tt));
  }

  pub IsTail-fire : (e : Effect) → IsTail (fire e)
  unfolding fire
  IsTail-fire e = record {
    at = λ w c h. (c, All-append (λ (f : Fired). f.session ≡ f.durable) w.fired _ h (sym c, tt));
  }

  module _ {B : Type 0} where
    still-Ended : (w : World) (r : Result Error B) (w' : World) → StillCommitted r w' → Ended w r w'
    still-Ended w (ok b) w' h = h
    still-Ended w (err e) w' h = elim h [ ]

    moved-Ended :
        (r : Result Error B) (u v w' : World)
        → Untouched v.durable v.fired u
        → Ended u r w'
        → Ended v r w'
    moved-Ended (ok b) u v w' q h = h
    moved-Ended (err x) u v w' q h =
        (only_trans env.others v.durable u.durable w'.durable q.0 h.0, h.1 ∙ q.1)

  module _ {A B : Type 0} where
    tail-continue :
        (r : Result Error A) (f : A → Flow B) (w : World)
        → ((a : A) → IsTail (f a))
        → StillCommitted r w
        → StillCommitted (continue r f w).0 (continue r f w).1
    tail-continue (ok a) f w k h = (k a).at w h.0 h.1
    tail-continue (err e) f w k h = elim h [ ]

    pub IsTail-bind :
        (m : Flow A) (f : A → Flow B) → IsTail m → ((a : A) → IsTail (f a)) → IsTail (m >>= f)
    unfolding ◌>>=◌
    IsTail-bind m f t k = record { at = λ w c h. tail-continue (m w).0 f (m w).1 k (t.at w c h) }

    quiet-continue :
        (r : Result Error A) (f : A → Flow B) (w w' : World)
        → ((a : A) → IsQuiet (f a))
        → Untouched w.durable w.fired w'
        → Untouched w.durable w.fired (continue r f w').1
    quiet-continue (ok a) f w w' k h = (
      only_trans env.others w.durable w'.durable (f a w').1.durable h.0 ((k a).at w').0,
      ((k a).at w').1 ∙ h.1,
    )
    quiet-continue (err e) f w w' k h = h

    pub IsQuiet-bind :
        (m : Flow A) (f : A → Flow B) → IsQuiet m → ((a : A) → IsQuiet (f a)) → IsQuiet (m >>= f)
    unfolding ◌>>=◌
    IsQuiet-bind m f q k = record { at = λ w. quiet-continue (m w).0 f w (m w).1 k (q.at w) }

    unit-continue :
        (r : Result Error A) (f : A → Flow B) (w w' : World)
        → ((a : A) → IsUnit (f a))
        → FiredClean w
        → Untouched w.durable w.fired w'
        → Ended w (continue r f w').0 (continue r f w').1
    unit-continue (ok a) f w w' k h q =
        moved-Ended (f a w').0 w' w (f a w').1 q ((k a).at w' (rw q.1 h))
    unit-continue (err e) f w w' k h q = q

    pub IsUnit-bind :
        (m : Flow A) (f : A → Flow B) → IsQuiet m → ((a : A) → IsUnit (f a)) → IsUnit (m >>= f)
    unfolding ◌>>=◌
    IsUnit-bind m f q k = record { at = λ w h. unit-continue (m w).0 f w (m w).1 k h (q.at w) }

    unit-then :
        (r : Result Error A) (f : A → Flow B) (w w' : World)
        → ((a : A) → IsTail (f a))
        → Ended w r w'
        → Ended w (continue r f w').0 (continue r f w').1
    unit-then (ok a) f w w' k h = still-Ended w (f a w').0 (f a w').1 ((k a).at w' h.0 h.1)
    unit-then (err e) f w w' k h = h

    pub IsUnit-then :
        (m : Flow A) (f : A → Flow B) → IsUnit m → ((a : A) → IsTail (f a)) → IsUnit (m >>= f)
    unfolding ◌>>=◌
    IsUnit-then m f u k = record { at = λ w h. unit-then (m w).0 f w (m w).1 k (u.at w h) }

  pub IsUnit-commit : IsUnit commit
  unfolding commit
  IsUnit-commit = record { at = λ w h. (refl, h) }

pub ruleset tails = (IsTail-pure, IsTail-fire, IsTail-dispatch_best_effort, IsTail-bind)

pub ruleset quiet = (
  IsQuiet-pure, IsQuiet-raise, IsQuiet-gets, IsQuiet-or_raise, IsQuiet-in_session,
  IsQuiet-in_locked, IsQuiet-raise_if, IsQuiet-bind,
)

pub IsQuiet-find_detail : (env : Env) (id : ℕ) → IsQuiet env (find_detail id)
unfolding find_detail
IsQuiet-find_detail env id = search quiet

pub IsQuiet-append_event :
    (env : Env) (e : DomainEventRecord) (id : ℕ) → IsQuiet env (append_event e id)
unfolding append_event
IsQuiet-append_event env e id = record { at = λ w. untouched env w }

pub IsQuiet-enqueue_email :
    (env : Env) (delivery_id : ℕ) (t : Template) (d : Application) (e : ℕ)
    → IsQuiet env (enqueue_email env delivery_id t d e)
unfolding enqueue_email modify
IsQuiet-enqueue_email env delivery_id t d e = record { at = λ w. untouched env w }

pub IsQuiet-to_flow : (env : Env) (o : Outcome TransitionResult) → IsQuiet env (to_flow o)
IsQuiet-to_flow env (Outcome.ok r) = search quiet
IsQuiet-to_flow env (Outcome.err e) = search quiet

pub IsQuiet-append_result :
    (env : Env) (e : Option DomainEventRecord) (id : ℕ) → IsQuiet env (append_result e id)
unfolding append_result
IsQuiet-append_result env none id = search quiet
IsQuiet-append_result env (some e) id = search (quiet, IsQuiet-append_event)

pub IsQuiet-enqueue_for :
    (env : Env) (delivery_id : ℕ) (t : Option Template) (d : Application) (e : Option ℕ)
    → IsQuiet env (enqueue_for env delivery_id t d e)
unfolding enqueue_for
IsQuiet-enqueue_for env delivery_id none d e = search quiet
IsQuiet-enqueue_for env delivery_id (some t) d none = search quiet
IsQuiet-enqueue_for env delivery_id (some t) d (some e) =
    IsQuiet-enqueue_email env delivery_id t d e

pub IsQuiet-enqueue_resent :
    (env : Env) (delivery_id : ℕ) (d : Application) (e : Option ℕ)
    → IsQuiet env (enqueue_resent env delivery_id d e)
unfolding enqueue_resent
IsQuiet-enqueue_resent env delivery_id d none = search quiet
IsQuiet-enqueue_resent env delivery_id d (some e) = IsQuiet-enqueue_email env delivery_id _ d e

pub IsTail-dispatch_if : (env : Env) (t : Option Template) → IsTail env (dispatch_if env t)
unfolding dispatch_if
IsTail-dispatch_if env none = search tails
IsTail-dispatch_if env (some t) = search tails

pub ruleset unit_rules = (
  quiet, tails, IsUnit-bind, IsUnit-then, IsUnit-commit, IsQuiet-find_detail, IsQuiet-append_event,
  IsQuiet-to_flow, IsQuiet-append_result, IsQuiet-enqueue_for, IsQuiet-enqueue_email,
  IsQuiet-enqueue_resent, IsTail-dispatch_if,
)
