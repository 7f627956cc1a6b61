-- ===== src/Examples/Emails.antt =====
-- The theorems on the email outbox at a queue of three deliveries.
use kvarteret_personal.Prelude.{
  ℕ, ◌+◌, ◌≡◌, ◌≢◌, ◌⊎◌, refl, Bool, true, false, none, some, [], ◌∷◌, ◌++◌, arith,
}
use kvarteret_personal.Exec.{ok, err}
use kvarteret_personal.EmailDelivery.{
  Delivery, DeliveryStatus, pending, failed, Attempt, smtp, retryable_failure, timeout,
  applicant_invitation, domain_event, manual, EmailDeliveryRequest,
}
use kvarteret_personal.EmailOutbox.{
  Outbox, find_key, enqueue, is_due, claim_due, claim_rows, claim_row, due_rows, sort_by_due,
  insert_by_due,
}
use kvarteret_personal.EmailOutbox.Attempts.{get_delivery, first_attempt_at}
use kvarteret_personal.EmailOutbox.Lease.{listed, NoneWith, claim_exclusive}
use kvarteret_personal.EmailOutbox.Service.{
  AttemptRun, Attempted, delivered, timed_out, DispatchOutcome, retrying, index_error,
  window_closed, dispatch_claimed, dispatch_due,
}
use kvarteret_personal.EmailOutbox.Service.Manual.{
  only_failed_can_be_retried, retry_failed, RecoveryLog, recovery_events,
}
use kvarteret_personal.EmailOutbox.Service.Retry.{
  window-not_sent, dispatch-ne-index_error, IsUnsent,
}
use kvarteret_personal.EmailOutbox.Service.Settle.{
  fifth_attempt_last, IsSettled, dispatch-Settles, dispatch_due_others,
}
use kvarteret_personal.EmailOutbox.Service.Recovery.{
  HasUniqueKeys, key_count, enqueue_again, enqueue-HasUniqueKeys, IsRetryable, IsSuccessor,
  retry_failed_cases,
}

abbrev delivery_at : ℕ → DeliveryStatus → ℕ → Delivery
delivery_at id status attempts = record {
  id = id;
  template_key = applicant_invitation;
  template_version = 1;
  recipient_email = "kari@example.org";
  business_type = "volunteer_application";
  business_id = 7;
  source_domain_event_id = some id;
  idempotency_key = domain_event id applicant_invitation;
  status = status;
  automatic_attempt_count = attempts;
  next_attempt_at = 1000;
  lease_owner = none;
  lease_until = none;
  last_error_category = none;
  encrypted_context = none;
  registration_id = some 7;
  supersedes_delivery_id = none;
  created_at = 900;
  updated_at = 900;
  sent_at = none;
}

abbrev first_try : Attempt
first_try = record {
  id = 1;
  delivery_id = 2;
  attempt_no = 1;
  stage = smtp;
  outcome = retryable_failure;
  error_category = some timeout;
  duration_ms = some 30;
  started_at = 1000;
  finished_at = some 1001;
}

-- One that waits, one that was tried four times, and one that failed.
abbrev queue : Outbox
queue = record {
  deliveries = delivery_at 1 pending 0 ∷ delivery_at 2 pending 4 ∷ delivery_at 3 failed 5 ∷ [];
  attempts = first_try ∷ [];
  next_attempt_id = 2;
  sends = [];
}

abbrev unlocked : ℕ → Bool
unlocked id = false

abbrev owner_100 : ℕ → ℕ
owner_100 id = id + 100

abbrev run_at : ℕ → Attempted → AttemptRun
run_at now attempted = record {
  started_at = now;
  prepared_at = now;
  finished_at = now + 1;
  duration_ms = 20;
  attempted = attempted;
}

abbrev claimed_queue : Outbox
claimed_queue = (claim_due 10 1200 300 unlocked owner_100 queue).1

claim_runs : listed 1 (claim_due 10 1200 300 unlocked owner_100 queue).0.0 ≡ true
unfolding claim_due due_rows sort_by_due insert_by_due claim_rows claim_row
claim_runs = refl

claim_exclusive_example :
    listed 1 (claim_due 5 1400 300 unlocked owner_100 claimed_queue).0.0 ≡ false
claim_exclusive_example =
    claim_exclusive 10 1200 300 unlocked owner_100 5 1400 300 unlocked owner_100 queue 1
      (omega arith) claim_runs

second_found : get_delivery 2 queue.deliveries ≡ some (delivery_at 2 pending 4)
unfolding get_delivery
second_found = refl

window_is_closed : window_closed (first_attempt_at 2 queue.attempts) 90000 ≡ true
unfolding window_closed first_attempt_at
window_is_closed = refl

window-not_sent_example : IsUnsent queue (dispatch_claimed 2 (run_at 90000 delivered) queue)
window-not_sent_example = window-not_sent 2 (run_at 90000 delivered) queue window_is_closed

dispatch-ne-index_error_example :
    (dispatch_claimed 2 (run_at 1200 (timed_out smtp)) queue).0 ≢ err index_error
dispatch-ne-index_error_example = dispatch-ne-index_error 2 (run_at 1200 (timed_out smtp)) queue

fifth_attempt_last_example :
    (o : DispatchOutcome) × (d' : Delivery) × ((dispatch_claimed 2
        (run_at 1200 (timed_out smtp))
        queue).0
      ≡ ok o)
    × (o ≢ retrying)
    × (get_delivery 2 (dispatch_claimed 2 (run_at 1200 (timed_out smtp)) queue).1.deliveries
        ≡ some d')
    × (d'.status ≢ pending)
    × ((now : ℕ) → is_due now d' ≡ false)
fifth_attempt_last_example =
    fifth_attempt_last 2 (run_at 1200 (timed_out smtp)) queue (delivery_at 2 pending 4) second_found
      (omega arith)

first_found : get_delivery 1 queue.deliveries ≡ some (delivery_at 1 pending 0)
unfolding get_delivery
first_found = refl

dispatch-Settles_example :
    (o : DispatchOutcome) × (d' : Delivery) × ((dispatch_claimed 1 (run_at 1200 delivered) queue).0
      ≡ ok o)
    × (get_delivery 1 (dispatch_claimed 1 (run_at 1200 delivered) queue).1.deliveries ≡ some d')
    × IsSettled o 1 d'
dispatch-Settles_example =
    dispatch-Settles 1 (run_at 1200 delivered) queue (delivery_at 1 pending 0) first_found

third_not_due : NoneWith 3 (is_due 1200) queue.deliveries
third_not_due = (λ e. ground arith, (λ e. ground arith, (λ e. refl, tt)))

dispatch_due_others_example :
    get_delivery 3
      (dispatch_due true 10 1200 unlocked owner_100
        (λ id. run_at 1200 delivered)
        queue).1.deliveries
    ≡ get_delivery 3 queue.deliveries
dispatch_due_others_example =
    dispatch_due_others true 3 10 1200 unlocked owner_100 (λ id. run_at 1200 delivered) queue
      third_not_due

abbrev invitation : EmailDeliveryRequest
invitation = record {
  template_key = applicant_invitation;
  template_version = 1;
  recipient_email = " Kari@Example.org ";
  business_type = "volunteer_application";
  business_id = 7;
  idempotency_key = domain_event 9 applicant_invitation;
  registration_id = some 7;
  source_domain_event_id = some 9;
  encrypted_context = none;
  supersedes_delivery_id = none;
}

enqueue_again_example :
    enqueue invitation 5 1300 (enqueue invitation 4 1200 queue).1
    ≡ (((enqueue invitation 4 1200 queue).0.0, false), (enqueue invitation 4 1200 queue).1)
enqueue_again_example = enqueue_again invitation 4 1200 5 1300 queue

abbrev empty_queue : Outbox
empty_queue = record { deliveries = []; attempts = []; next_attempt_id = 1; sends = [] }

empty_queue-HasUniqueKeys : HasUniqueKeys empty_queue
unfolding key_count
empty_queue-HasUniqueKeys k = omega arith

enqueue-HasUniqueKeys_example : HasUniqueKeys (enqueue invitation 4 1200 empty_queue).1
enqueue-HasUniqueKeys_example =
    enqueue-HasUniqueKeys invitation 4 1200 empty_queue empty_queue-HasUniqueKeys

third_found : get_delivery 3 queue.deliveries ≡ some (delivery_at 3 failed 5)
unfolding get_delivery
third_found = refl

hex_is_fresh : find_key (manual 3 77) queue.deliveries ≡ none
unfolding find_key
hex_is_fresh = refl

abbrev no_recovery_yet : RecoveryLog
no_recovery_yet = record { outbox = queue; events = [] }

retry_failed_cases_example :
    (IsRetryable (delivery_at 3 failed 5)
      × (e : Delivery) × (retry_failed 3 9 4 77 1300 no_recovery_yet ≡ (
        ok 4,
        record {
          outbox = record queue { deliveries = queue.deliveries ++ e ∷ [] };
          events = recovery_events (delivery_at 3 failed 5) 9 "email_delivery_retried" 4;
        },
      ))
      × IsSuccessor 4 (delivery_at 3 failed 5) e)
    ⊎ ((¬ IsRetryable (delivery_at 3 failed 5))
        × (retry_failed 3 9 4 77 1300 no_recovery_yet
            ≡ (err only_failed_can_be_retried, no_recovery_yet)))
retry_failed_cases_example =
    retry_failed_cases 3 9 4 77 1300 no_recovery_yet (delivery_at 3 failed 5) third_found
      hex_is_fresh
