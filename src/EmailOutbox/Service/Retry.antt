-- ===== src/EmailOutbox/Service/Retry.antt =====
-- The retry policy of app/email_outbox_service.py.
use kvarteret_personal.Prelude.{
  ℕ, zero, suc, ◌+◌, ◌-◌, ◌≤◌, ◌<◌, ◌≡◌, ◌≢◌, ◌∙◌, Bool-cases, refl, true, Option, none, some, List,
  [], ◌∷◌, ◌++◌, arith, inl, inr, ap, Option-cases, min,
}
use kvarteret_personal.Exec.{ok, err, Result}
use kvarteret_personal.EmailDelivery.{Delivery, Attempt}
use kvarteret_personal.EmailOutbox.{Outbox}
use kvarteret_personal.EmailOutbox.Attempts.{
  earlier, get_delivery, start_attempt, first_attempt_at, new_attempt, finish_failure,
}
use kvarteret_personal.EmailOutbox.Service.{
  AttemptRun, Attempted, early_timeout, early_connection, early_unexpected, preparation_failed,
  resend_failed, timed_out, connection_lost, crashed, delivered, DispatchError, DispatchOutcome,
  should_retry, Failure, index_error, was_sent, retrying, retry_delay, finish, window_closed,
  to_failure, dispatch_claimed, conclude, max_automatic_attempts,
}

delay_defined : (n : ℕ) → n < 4 → retry_delay n ≢ none
unfolding retry_delay
delay_defined zero h = ground arith
delay_defined (suc zero) h = ground arith
delay_defined (suc (suc zero)) h = ground arith
delay_defined (suc (suc (suc zero))) h = ground arith
delay_defined (suc (suc (suc (suc n)))) h = absurd (omega arith)

-- The lookup of the retry delay is in range whenever it is made.
pub finish-ne-index_error :
    (delivery_id attempt_id attempt_no now duration_ms : ℕ) (f : Failure) (s : Outbox)
    → 1 ≤ attempt_no
    → (finish delivery_id attempt_id attempt_no f now duration_ms s).0 ≢ err index_error
unfolding finish
finish-ne-index_error delivery_id attempt_id attempt_no now duration_ms f s h e =
    ground (arith, delay_defined (attempt_no - 1))

abbrev min_opt : Option ℕ → Option ℕ → Option ℕ
min_opt none y = y
min_opt (some t) none = some t
min_opt (some t) (some u) = some (min t u)

earlier-min_opt : (t : ℕ) (x y : Option ℕ) → earlier t (min_opt x y) ≡ min_opt (earlier t x) y
earlier-min_opt t none none = refl
earlier-min_opt t none (some u) = refl
earlier-min_opt t (some v) none = refl
earlier-min_opt t (some v) (some u) = ap some (omega arith)

first_attempt_at-append :
    (k : ℕ) (rows more : List Attempt)
    → first_attempt_at k (rows ++ more)
      ≡ min_opt (first_attempt_at k rows) (first_attempt_at k more)
unfolding first_attempt_at
first_attempt_at-append k [] more = refl
first_attempt_at-append k (b ∷ rows) more = rw (first_attempt_at-append k rows more) (
    ground
      (arith, earlier-min_opt b.started_at (first_attempt_at k rows) (first_attempt_at k more)))

-- Another attempt does not open the window again.
window-min_opt :
    (now : ℕ) (x y : Option ℕ) → window_closed x now ≡ true → window_closed (min_opt x y) now ≡ true
unfolding window_closed
window-min_opt now none y h = cc
window-min_opt now (some t) none h = h
window-min_opt now (some t) (some u) h = ground arith

-- What ends an attempt calls the sender no more.
sends-finish :
    (k id number now ms : ℕ) (f : Failure) (s : Outbox)
    → (finish k id number f now ms s).1.sends ≡ s.sends
unfolding finish finish_failure
sends-finish k id number now ms f s = elim (Bool-cases (should_retry f number)) [
  | inl again ↦ elim (Option-cases (retry_delay (number - 1))) [
    | inl e ↦ rw (again, e) refl
    | inr (delay, e) ↦ rw (again, e) refl
  ]
  | inr last ↦ rw last refl
]

-- The sender was not called, and the delivery does not count as sent.
abbrev pub IsUnsent : Outbox → Result DispatchError DispatchOutcome × Outbox → Type 0
IsUnsent s p = (p.0 ≢ ok was_sent) × (p.1.sends ≡ s.sends)

finish-IsUnsent :
    (k id number now ms : ℕ) (f : Failure) (s t : Outbox)
    → s.sends ≡ t.sends
    → IsUnsent t (finish k id number f now ms s)
unfolding finish
finish-IsUnsent k id number now ms f s t e =
    (λ h. ground arith, sends-finish k id number now ms f s ∙ e)

conclude-closed :
    (k id number : ℕ) (run : AttemptRun) (a : Attempted) (s t : Outbox)
    → s.sends ≡ t.sends
    → IsUnsent t (conclude k id number run (to_failure true a) s)
unfolding to_failure
conclude-closed k id number run early_timeout s t e = finish-IsUnsent k id number _ _ _ s t e
conclude-closed k id number run early_connection s t e = finish-IsUnsent k id number _ _ _ s t e
conclude-closed k id number run early_unexpected s t e = finish-IsUnsent k id number _ _ _ s t e
conclude-closed k id number run (preparation_failed c r x) s t e =
    finish-IsUnsent k id number _ _ _ s t e
conclude-closed k id number run (resend_failed c r) s t e = finish-IsUnsent k id number _ _ _ s t e
conclude-closed k id number run (timed_out st) s t e = finish-IsUnsent k id number _ _ _ s t e
conclude-closed k id number run (connection_lost st) s t e = finish-IsUnsent k id number _ _ _ s t e
conclude-closed k id number run (crashed st) s t e = finish-IsUnsent k id number _ _ _ s t e
conclude-closed k id number run delivered s t e = finish-IsUnsent k id number _ _ _ s t e

-- If the first attempt of a delivery is 23 hours old, or older, when the message is prepared, its
-- dispatch does not call the sender and does not end as sent.
pub window-not_sent :
    (k : ℕ) (run : AttemptRun) (s : Outbox)
    → window_closed (first_attempt_at k s.attempts) run.prepared_at ≡ true
    → IsUnsent s (dispatch_claimed k run s)
unfolding dispatch_claimed start_attempt
window-not_sent k run s h = elim (Option-cases (get_delivery k s.deliveries)) [
  | inl e ↦ rw (e, start_attempt) (λ p. cc, refl)
  | inr (d, e) ↦
      let a = new_attempt s.next_attempt_id k (d.automatic_attempt_count + 1) run.started_at in
      rw (e, start_attempt)
        (rw
          (
            first_attempt_at-append k s.attempts (a ∷ []),
            window-min_opt run.prepared_at (first_attempt_at k s.attempts)
                (first_attempt_at k (a ∷ [])) h,
          )
          (conclude-closed k s.next_attempt_id (d.automatic_attempt_count + 1) run run.attempted _ s
            refl))
]

conclude-in_range :
    (k id number : ℕ) (run : AttemptRun) (o : Option Failure) (s : Outbox)
    → 1 ≤ number
    → (conclude k id number run o s).0 ≢ err index_error
conclude-in_range k id number run none s h = λ p. cc
conclude-in_range k id number run (some f) s h =
    finish-ne-index_error k id number run.finished_at run.duration_ms f _ h

-- Dispatching a delivery never runs past the end of the table of retry delays, however often the
-- delivery was tried before.
pub dispatch-ne-index_error :
    (k : ℕ) (run : AttemptRun) (s : Outbox) → (dispatch_claimed k run s).0 ≢ err index_error
unfolding dispatch_claimed start_attempt
dispatch-ne-index_error k run s = elim (Option-cases (get_delivery k s.deliveries)) [
  | inl e ↦ rw (e, start_attempt) (λ p. cc)
  | inr (d, e) ↦
      rw (e, start_attempt)
        (conclude-in_range k s.next_attempt_id (d.automatic_attempt_count + 1) run
          (to_failure
            (window_closed
              (first_attempt_at k (
                s.attempts
                ++ new_attempt s.next_attempt_id k (d.automatic_attempt_count + 1) run.started_at
                  ∷ []))
              run.prepared_at)
            run.attempted)
          _ (omega arith))
]

finish_last :
    (k id number now ms : ℕ) (f : Failure) (s : Outbox)
    → max_automatic_attempts ≤ number
    → (finish k id number f now ms s).0 ≢ ok retrying
unfolding finish
finish_last k id number now ms f s h = ground arith

conclude_last :
    (k id number : ℕ) (run : AttemptRun) (o : Option Failure) (s : Outbox)
    → max_automatic_attempts ≤ number
    → (conclude k id number run o s).0 ≢ ok retrying
conclude_last k id number run none s h = λ p. cc
conclude_last k id number run (some f) s h =
    finish_last k id number run.finished_at run.duration_ms f _ h

-- The outcome of a fifth attempt, or a later one.
pub fifth_attempt-ne-retrying :
    (k : ℕ) (run : AttemptRun) (s : Outbox) (d : Delivery)
    → get_delivery k s.deliveries ≡ some d
    → 4 ≤ d.automatic_attempt_count
    → (dispatch_claimed k run s).0 ≢ ok retrying
unfolding dispatch_claimed start_attempt
fifth_attempt-ne-retrying k run s d e h =
    rw (e, start_attempt)
      (conclude_last k s.next_attempt_id (d.automatic_attempt_count + 1) run
        (to_failure
          (window_closed
            (first_attempt_at k (
              s.attempts
              ++ new_attempt s.next_attempt_id k (d.automatic_attempt_count + 1) run.started_at
                ∷ []))
            run.prepared_at)
          run.attempted)
        _ (omega arith))
