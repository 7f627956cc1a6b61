-- ===== src/EmailOutbox/Service/Settle.antt =====
-- What a dispatch of app/email_outbox_service.py writes to the deliveries.
use kvarteret_personal.Prelude.{
  update_where, ℕ, ◌+◌, ◌-◌, ◌≤◌, ◌≡◌, ◌≢◌, refl, Bool, true, false, Option, none, some, List, [],
  ◌∷◌, arith, ◌==◌, ==_iff, Bool-cases, inl, inr, ap, ◌∙◌, Option-cases, sym,
}
use kvarteret_personal.Exec.{Exec, Result, ok, err, continue, ◌>>=◌}
use kvarteret_personal.EmailDelivery.{
  Delivery, DeliveryStatus, pending, sent, failed, expired, AttemptStage, prepare, render, smtp,
  DispatchSummary,
}
use kvarteret_personal.EmailOutbox.{Outbox, is_due, claim_rows, claim_row, claim_due, due_rows}
use kvarteret_personal.EmailOutbox.Attempts.{
  get_delivery, start_attempt, finish_failure, finish_success,
}
use kvarteret_personal.EmailOutbox.Lease.{listed, NoneWith, claimed-ids, listed-due_rows}
use kvarteret_personal.EmailOutbox.Service.Retry.{finish-ne-index_error, fifth_attempt-ne-retrying}
use kvarteret_personal.EmailOutbox.Service.{
  AttemptRun, Failure, DispatchOutcome, DispatchError, was_sent, retrying, was_failed, was_expired,
  lease_duration, should_retry, retry_delay, finish, dispatch_claimed, dispatch_each, dispatch_due,
  safe_batch_size, conclude, reach_stage, count_outcome,
}

module _ (k : ℕ) (f : Delivery → Delivery) where
  get-update_self :
      (ds : List Delivery) (d : Delivery)
      → ((x : Delivery) → (f x).id ≡ x.id)
      → get_delivery k ds ≡ some d
      → get_delivery k (update_where (λ (x : Delivery). x.id == k) f ds) ≡ some (f d)
  unfolding get_delivery
  get-update_self [] d keeps h = cc
  get-update_self (x ∷ ds) d keeps h = ground (arith, get-update_self ds d keeps, keeps x)

  get-update_ne :
      (j : ℕ) (ds : List Delivery)
      → ((x : Delivery) → (f x).id ≡ x.id)
      → j ≢ k
      → get_delivery j (update_where (λ (x : Delivery). x.id == k) f ds) ≡ get_delivery j ds
  unfolding get_delivery
  get-update_ne j [] keeps h = refl
  get-update_ne j (x ∷ ds) keeps h = ground (arith, get-update_ne j ds keeps, keeps x)

-- The status that each outcome leaves.
abbrev pub status_of : DispatchOutcome → DeliveryStatus
status_of was_sent = sent
status_of retrying = pending
status_of was_failed = failed
status_of was_expired = expired

-- The row after a dispatch that ended with `o`.
abbrev pub IsSettled : DispatchOutcome → ℕ → Delivery → Type 0
IsSettled o attempts d =
    (d.status ≡ status_of o) × (d.lease_until ≡ none) × (d.automatic_attempt_count ≡ attempts)

-- A call that ended and left its delivery settled.
abbrev pub Settles : ℕ → ℕ → Result DispatchError DispatchOutcome × Outbox → Type 0
Settles k attempts p =
    (o : DispatchOutcome) × (d : Delivery) × (p.0 ≡ ok o)
    × (get_delivery k p.1.deliveries ≡ some d)
    × IsSettled o attempts d

finish-Settles :
    (k id number now ms : ℕ) (f : Failure) (s : Outbox) (d : Delivery)
    → get_delivery k s.deliveries ≡ some d
    → 1 ≤ number
    → Settles k d.automatic_attempt_count (finish k id number f now ms s)
unfolding finish finish_failure
finish-Settles k id number now ms f s d g h = elim (Bool-cases (should_retry f number)) [
  | inl again ↦ elim (Option-cases (retry_delay (number - 1))) [
    | inl e ↦ absurd (finish-ne-index_error k id number now ms f s h (rw (again, e) refl))
    | inr (delay, e) ↦
        rw (again, e)
          (retrying, _, refl, get-update_self k _ s.deliveries d (λ x. refl) g, (refl, refl, refl))
  ]
  | inr last ↦
      rw last
        (_, _, refl, get-update_self k _ s.deliveries d (λ x. refl) g, (ground arith, refl, refl))
]

deliveries-reach_stage :
    (k id : ℕ) (st : AttemptStage) (s : Outbox) → (reach_stage k id st s).deliveries ≡ s.deliveries
deliveries-reach_stage k id prepare s = refl
deliveries-reach_stage k id render s = refl
deliveries-reach_stage k id smtp s = refl

conclude-Settles :
    (k id number : ℕ) (run : AttemptRun) (failure : Option Failure) (s : Outbox) (d : Delivery)
    → get_delivery k s.deliveries ≡ some d
    → 1 ≤ number
    → Settles k d.automatic_attempt_count (conclude k id number run failure s)
unfolding finish_success
conclude-Settles k id number run (some f) s d g h =
    finish-Settles k id number run.finished_at run.duration_ms f (reach_stage k id f.stage s) d
      (rw (deliveries-reach_stage k id f.stage s) g) h
conclude-Settles k id number run none s d g h =
    (was_sent, _, refl, get-update_self k _ s.deliveries d (λ x. refl) g, (refl, refl, refl))

-- The dispatch of a delivery that is there always ends with an outcome. It leaves the delivery with
-- the status of that outcome, without a lease, and with one more attempt.
pub dispatch-Settles :
    (k : ℕ) (run : AttemptRun) (s : Outbox) (d : Delivery)
    → get_delivery k s.deliveries ≡ some d
    → Settles k (d.automatic_attempt_count + 1) (dispatch_claimed k run s)
unfolding dispatch_claimed start_attempt
dispatch-Settles k run s d g =
    rw (g, start_attempt)
      (conclude-Settles k s.next_attempt_id (d.automatic_attempt_count + 1) run _ _ _
        (get-update_self k _ s.deliveries d (λ x. refl) g) (omega arith))

retrying_or_not : (o : DispatchOutcome) → o ≢ retrying → status_of o ≢ pending
retrying_or_not was_sent h = λ e. cc
retrying_or_not retrying h = absurd (h refl)
retrying_or_not was_failed h = λ e. cc
retrying_or_not was_expired h = λ e. cc

not_pending-not_due : (now : ℕ) (d : Delivery) → d.status ≢ pending → is_due now d ≡ false
not_pending-not_due now d h = ground arith

-- Whatever comes of the dispatch of a delivery that was tried four times, or more, it is not to be
-- tried again: the dispatch ends with an outcome, the stored row is not pending, and so it is not due
-- at any time.
pub fifth_attempt_last :
    (k : ℕ) (run : AttemptRun) (s : Outbox) (d : Delivery)
    → get_delivery k s.deliveries ≡ some d
    → 4 ≤ d.automatic_attempt_count
    → (o : DispatchOutcome) × (d' : Delivery) × ((dispatch_claimed k run s).0 ≡ ok o)
      × (o ≢ retrying)
      × (get_delivery k (dispatch_claimed k run s).1.deliveries ≡ some d')
      × (d'.status ≢ pending)
      × ((now : ℕ) → is_due now d' ≡ false)
fifth_attempt_last k run s d g h =
    let (o, d', ends, stored, settled) = dispatch-Settles k run s d g in
    let last : o ≢ retrying = λ e. fifth_attempt-ne-retrying k run s d g h (ends ∙ ap ok e) in
    let final : d'.status ≢ pending = λ e. retrying_or_not o last (sym settled.0 ∙ e) in
    (o, d', ends, last, stored, final, λ now. not_pending-not_due now d' final)

finish_others :
    (k id number now ms j : ℕ) (f : Failure) (s : Outbox)
    → j ≢ k
    → get_delivery j (finish k id number f now ms s).1.deliveries ≡ get_delivery j s.deliveries
unfolding finish finish_failure
finish_others k id number now ms j f s ne = elim (Bool-cases (should_retry f number)) [
  | inl again ↦ elim (Option-cases (retry_delay (number - 1))) [
    | inl e ↦ rw (again, e)
    | inr (delay, e) ↦ rw (again, e) (get-update_ne k _ j s.deliveries (λ x. refl) ne)
  ]
  | inr last ↦ rw last (get-update_ne k _ j s.deliveries (λ x. refl) ne)
]

conclude_others :
    (k id number j : ℕ) (run : AttemptRun) (failure : Option Failure) (s : Outbox)
    → j ≢ k
    → get_delivery j (conclude k id number run failure s).1.deliveries ≡ get_delivery j s.deliveries
unfolding finish_success
conclude_others k id number j run (some f) s ne =
    finish_others k id number run.finished_at run.duration_ms j f (reach_stage k id f.stage s) ne
    ∙ ap (get_delivery j) (deliveries-reach_stage k id f.stage s)
conclude_others k id number j run none s ne = get-update_ne k _ j s.deliveries (λ x. refl) ne

-- A dispatch touches no other delivery.
pub dispatch_others :
    (k j : ℕ) (run : AttemptRun) (s : Outbox)
    → j ≢ k
    → get_delivery j (dispatch_claimed k run s).1.deliveries ≡ get_delivery j s.deliveries
unfolding dispatch_claimed start_attempt
dispatch_others k j run s ne = elim (Option-cases (get_delivery k s.deliveries)) [
  | inl e ↦ rw (e, start_attempt)
  | inr (d, e) ↦
      rw (e, start_attempt)
        (conclude_others k s.next_attempt_id (d.automatic_attempt_count + 1) j run _ _ ne
          ∙ get-update_ne k _ j s.deliveries (λ x. refl) ne)
]

continue_others :
    (j : ℕ) (next : DispatchOutcome → Exec Outbox DispatchError DispatchSummary)
    → ((o : DispatchOutcome) (s : Outbox)
        → get_delivery j (next o s).1.deliveries ≡ get_delivery j s.deliveries)
    → (r : Result DispatchError DispatchOutcome) (s : Outbox)
    → get_delivery j (continue r next s).1.deliveries ≡ get_delivery j s.deliveries
continue_others j next keeps (ok o) s = keeps o s
continue_others j next keeps (err e) s = refl

dispatch_each_others :
    (claimed : List ℕ) (j : ℕ) (run : ℕ → AttemptRun) (t : DispatchSummary) (s : Outbox)
    → listed j claimed ≡ false
    → get_delivery j (dispatch_each claimed run t s).1.deliveries ≡ get_delivery j s.deliveries
unfolding dispatch_each ◌>>=◌
dispatch_each_others [] j run t s h = refl
dispatch_each_others (k ∷ rest) j run t s h =
    continue_others j (λ o. dispatch_each rest run (count_outcome o t))
      (λ o s'. dispatch_each_others rest j run (count_outcome o t) s' (ground arith))
      (dispatch_claimed k (run k) s).0 (dispatch_claimed k (run k) s).1
    ∙ dispatch_others k j (run k) s (λ e. ground (arith, ==_iff k j))

claim_rows_others :
    (now dur j : ℕ) (owner : ℕ → ℕ) (rows : List Delivery) (s : Outbox)
    → listed j (claim_rows now dur owner rows s).0.0 ≡ false
    → get_delivery j (claim_rows now dur owner rows s).1.deliveries ≡ get_delivery j s.deliveries
unfolding claim_rows
claim_rows_others now dur j owner [] s h = refl
claim_rows_others now dur j owner (r ∷ rows) s h =
    claim_rows_others now dur j owner rows (claim_row now dur owner r s) (ground arith)
    ∙ get-update_ne r.id _ j s.deliveries (λ x. refl) (λ e. ground (arith, ==_iff r.id j))

not_due-not_claimed :
    (k batch now dur : ℕ) (locked : ℕ → Bool) (owner : ℕ → ℕ) (s : Outbox)
    → NoneWith k (is_due now) s.deliveries
    → listed k (claim_due batch now dur locked owner s).0.0 ≡ false
unfolding claim_due
not_due-not_claimed k batch now dur locked owner s h =
    rw (claimed-ids now dur owner (due_rows batch now locked s.deliveries) s)
      (listed-due_rows k batch now locked s.deliveries h)

claim_due_others :
    (batch now dur j : ℕ) (locked : ℕ → Bool) (owner : ℕ → ℕ) (s : Outbox)
    → listed j (claim_due batch now dur locked owner s).0.0 ≡ false
    → get_delivery j (claim_due batch now dur locked owner s).1.deliveries
      ≡ get_delivery j s.deliveries
unfolding claim_due
claim_due_others batch now dur j locked owner s =
    claim_rows_others now dur j owner (due_rows batch now locked s.deliveries) s

-- A run of the dispatcher leaves every delivery alone that is not due: one that was sent, failed
-- or expired, one that waits for its next attempt, and one that another worker has leased.
pub dispatch_due_others :
    (enabled : Bool) (k batch now : ℕ) (locked : ℕ → Bool) (owner : ℕ → ℕ) (run : ℕ → AttemptRun)
    (s : Outbox)
    → NoneWith k (is_due now) s.deliveries
    → get_delivery k (dispatch_due enabled batch now locked owner run s).1.deliveries
      ≡ get_delivery k s.deliveries
unfolding dispatch_due
dispatch_due_others false k batch now locked owner run s h = refl
dispatch_due_others true k batch now locked owner run s h =
    let b = safe_batch_size batch in
    let s' = (claim_due b now lease_duration locked owner s).1 in
    let free = not_due-not_claimed k b now lease_duration locked owner s h in
    dispatch_each_others (claim_due b now lease_duration locked owner s).0.0 k run _ s' free
    ∙ claim_due_others b now lease_duration k locked owner s free
