-- ===== src/EmailOutbox/Service.antt =====
-- app/email_outbox_service.py: the dispatch of one delivery and of a batch, and the retry policy.
-- What the message preparer and the sender answer, and the
-- readings of the clock, are the argument `run`. Every write is followed by a commit, so the
-- states between the operations are the states that survive a crash. Logging is left out.
pub mod Manual
pub mod Retry
pub mod Settle
pub mod Recovery
use kvarteret_personal.Prelude.{
  ℕ, zero, suc, ◌+◌, ◌-◌, ◌*◌, Bool, true, false, not, ◌&&◌, ◌||◌, String, Option, none, some, List,
  [], ◌∷◌, ◌++◌, leb, ltb, ◌==◌, length, if◌then◌else◌, is_some, max, min,
}
use kvarteret_personal.Exec.{
  Exec, Result, ok, err, pure, raise, or_raise, gets, modify, ◌>>=◌, ◌>>◌,
}
use kvarteret_personal.EmailDelivery.{
  IdempotencyKey, manual, DeliveryStatus, pending, sent, failed, expired, AttemptStage, prepare,
  render, smtp, AttemptOutcome, retryable_failure, permanent_failure, ErrorCategory,
  idempotency_window_expired, timeout, connection, unexpected, EmailDeliveryRequest, Delivery,
  DispatchSummary,
}
use kvarteret_personal.EmailOutbox.{Outbox, OutboxError, OutboxExec, no_row, enqueue, claim_due}
use kvarteret_personal.EmailOutbox.Attempts.{
  get_delivery, start_attempt, first_attempt_at, set_attempt_stage, finish_success, finish_failure,
}

abbrev pub lease_duration : ℕ
lease_duration = 300

abbrev pub max_automatic_attempts : ℕ
max_automatic_attempts = 5

-- `_RETRY_DELAYS` in seconds; `none` is an IndexError.
unfoldable pub retry_delay : ℕ → Option ℕ
retry_delay zero = some 60
retry_delay (suc zero) = some 300
retry_delay (suc (suc zero)) = some 1800
retry_delay (suc (suc (suc zero))) = some 7200
retry_delay (suc (suc (suc (suc _)))) = none

-- The IndexError of the retry delays, and the NoResultFound of a delivery that is gone.
pub data DispatchError : Type 0 where
  index_error missing_delivery : DispatchError

-- 23 hours
abbrev pub idempotency_window : ℕ
idempotency_window = 82800

-- How an attempt ended: an exception before the window check, the preparer's
-- EmailPreparationFailure, the sender's ResendDeliveryError, the other exceptions with the stage
-- that they hit, or success.
pub data Attempted : Type 0 where
  early_timeout early_connection early_unexpected : Attempted
  preparation_failed : ErrorCategory → Bool → Bool → Attempted
  resend_failed : ErrorCategory → Bool → Attempted
  timed_out connection_lost crashed : AttemptStage → Attempted
  delivered : Attempted

-- The clock when the attempt starts, when it is prepared and when it is finished.
pub record AttemptRun : Type 0 where
  pub started_at : ℕ
  pub prepared_at : ℕ
  pub finished_at : ℕ
  pub duration_ms : ℕ
  pub attempted : Attempted

pub data DispatchOutcome : Type 0 where
  was_sent retrying was_failed was_expired : DispatchOutcome

-- What `_finish_failure` is called with.
pub record Failure : Type 0 where
  pub stage : AttemptStage
  pub category : ErrorCategory
  pub retryable : Bool
  pub expired_flag : Bool

unfoldable pub should_retry : Failure → ℕ → Bool
should_retry f attempt_no = f.retryable && ltb attempt_no max_automatic_attempts

abbrev retry_values : ErrorCategory → ℕ → ℕ → Delivery → Delivery
retry_values category now delay d = record d {
  status = pending;
  last_error_category = some category;
  updated_at = now;
  lease_owner = none;
  lease_until = none;
  next_attempt_at = now + delay;
}

-- An expired delivery loses its context, a failed one keeps it for an administrator.
abbrev final_values : Failure → ℕ → Delivery → Delivery
final_values f now d = record d {
  status = if f.expired_flag then expired else failed;
  last_error_category = some f.category;
  updated_at = now;
  lease_owner = none;
  lease_until = none;
  encrypted_context = if f.expired_flag then none else d.encrypted_context;
}

abbrev retry_with :
    ℕ → ℕ → Failure → ℕ → ℕ → Option ℕ → Outbox → Result DispatchError DispatchOutcome × Outbox
retry_with delivery_id attempt_id f now duration_ms none s = (err index_error, s)
retry_with delivery_id attempt_id f now duration_ms (some delay) s = (
  ok retrying,
  finish_failure delivery_id attempt_id f.stage retryable_failure f.category duration_ms now
      (retry_values f.category now delay) s,
)

-- `_finish_failure`
unfoldable pub finish : ℕ → ℕ → ℕ → Failure → ℕ → ℕ → Exec Outbox DispatchError DispatchOutcome
unfolding should_retry retry_delay
finish delivery_id attempt_id attempt_no f now duration_ms s =
    if should_retry f attempt_no
    then retry_with delivery_id attempt_id f now duration_ms (retry_delay (attempt_no - 1)) s
    else (
      ok (if f.expired_flag then was_expired else was_failed),
      finish_failure delivery_id attempt_id f.stage permanent_failure f.category duration_ms now
          (final_values f now) s,
    )

-- The check of `_prepare_email`: the first attempt is 23 hours old, or older.
unfoldable pub window_closed : Option ℕ → ℕ → Bool
window_closed none now = false
window_closed (some first_attempt) now = leb idempotency_window (now - first_attempt)

-- The first argument says that the window is closed. The failure of each exception of the `try` of `_dispatch_claimed_attempt`; `none` is success.
unfoldable pub to_failure : Bool → Attempted → Option Failure
to_failure _ early_timeout =
    some (record { stage = prepare; category = timeout; retryable = true; expired_flag = false })
to_failure _ early_connection =
    some (record { stage = prepare; category = connection; retryable = true; expired_flag = false })
to_failure _ early_unexpected =
    some
      (record { stage = prepare; category = unexpected; retryable = false; expired_flag = false })
to_failure true _ = some (record {
  stage = prepare;
  category = idempotency_window_expired;
  retryable = false;
  expired_flag = true;
})
to_failure false (preparation_failed category can_retry is_expired) = some (record {
  stage = prepare;
  category = category;
  retryable = can_retry;
  expired_flag = is_expired;
})
to_failure false (resend_failed category can_retry) =
    some (record { stage = smtp; category = category; retryable = can_retry; expired_flag = false })
to_failure false (timed_out stage) =
    some (record { stage = stage; category = timeout; retryable = true; expired_flag = false })
to_failure false (connection_lost stage) =
    some (record { stage = stage; category = connection; retryable = true; expired_flag = false })
to_failure false (crashed stage) =
    some (record { stage = stage; category = unexpected; retryable = false; expired_flag = false })
to_failure false delivered = none

-- The call of the sender, `email_sender.send_email`.
abbrev send_email : ℕ → Outbox → Outbox
send_email delivery_id s = record s { sends = s.sends ++ delivery_id ∷ [] }

-- The steps before the end of an attempt, by the stage that it reached: none if it ended in
-- `prepare`, and the call of the sender if it came to `smtp`.
abbrev reach_stage : ℕ → ℕ → AttemptStage → Outbox → Outbox
reach_stage delivery_id attempt_id prepare s = s
reach_stage delivery_id attempt_id render s = set_attempt_stage attempt_id render s
reach_stage delivery_id attempt_id smtp s =
    send_email delivery_id
      (set_attempt_stage attempt_id smtp (set_attempt_stage attempt_id render s))

abbrev conclude :
    ℕ → ℕ → ℕ → AttemptRun → Option Failure → Exec Outbox DispatchError DispatchOutcome
conclude delivery_id attempt_id attempt_no run (some f) s =
    finish delivery_id attempt_id attempt_no f run.finished_at run.duration_ms
      (reach_stage delivery_id attempt_id f.stage s)
conclude delivery_id attempt_id attempt_no run none s = (
  ok was_sent,
  finish_success delivery_id attempt_id run.finished_at run.duration_ms
      (reach_stage delivery_id attempt_id smtp s),
)

abbrev continue_attempt :
    ℕ
    → AttemptRun
    → Result OutboxError (ℕ × ℕ × Option ℕ) × Outbox
    → Result DispatchError DispatchOutcome × Outbox
continue_attempt delivery_id run (err _, s) = (err missing_delivery, s)
continue_attempt delivery_id run (ok (attempt_id, attempt_no, _), s) =
    conclude delivery_id attempt_id attempt_no run
      (to_failure (window_closed (first_attempt_at delivery_id s.attempts) run.prepared_at)
        run.attempted)
      s

-- `_dispatch_claimed_attempt`
unfoldable pub dispatch_claimed : ℕ → AttemptRun → Exec Outbox DispatchError DispatchOutcome
unfolding finish to_failure window_closed
dispatch_claimed delivery_id run s =
    continue_attempt delivery_id run (start_attempt delivery_id run.started_at s)

abbrev count_outcome : DispatchOutcome → DispatchSummary → DispatchSummary
count_outcome was_sent t = record t { sent_count = t.sent_count + 1 }
count_outcome retrying t = record t { retrying_count = t.retrying_count + 1 }
count_outcome was_failed t = record t { failed_count = t.failed_count + 1 }
count_outcome was_expired t = record t { expired_count = t.expired_count + 1 }

-- The loop of `dispatch_due`; an exception ends it.
unfoldable pub dispatch_each :
    List ℕ → (ℕ → AttemptRun) → DispatchSummary → Exec Outbox DispatchError DispatchSummary
unfolding dispatch_claimed
dispatch_each [] run t = pure t
dispatch_each (delivery_id ∷ rest) run t = do
  outcome ← dispatch_claimed delivery_id (run delivery_id)
  dispatch_each rest run (count_outcome outcome t)

-- max(1, min(batch_size, 10))
abbrev pub safe_batch_size : ℕ → ℕ
safe_batch_size batch_size = max 1 (min batch_size 10)

abbrev empty_summary : DispatchSummary
empty_summary = record {
  claimed_count = 0;
  sent_count = 0;
  retrying_count = 0;
  failed_count = 0;
  expired_count = 0;
  interrupted_count = 0;
  delivery_ids = [];
}

unfoldable pub dispatch_due :
    Bool
    → ℕ
    → ℕ
    → (ℕ → Bool)
    → (ℕ → ℕ)
    → (ℕ → AttemptRun)
    → Exec Outbox DispatchError DispatchSummary
unfolding dispatch_each
dispatch_due dispatch_enabled batch_size now locked owner run s =
    if not dispatch_enabled
    then (ok empty_summary, s)
    else let ((claimed, interrupted_count), s') =
        claim_due (safe_batch_size batch_size) now lease_duration locked owner s in
      dispatch_each claimed run
        (record empty_summary {
          claimed_count = length claimed;
          interrupted_count = interrupted_count;
          delivery_ids = claimed;
        })
        s'
