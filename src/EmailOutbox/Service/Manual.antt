-- ===== src/EmailOutbox/Service/Manual.antt =====
-- app/email_outbox_service.py: the retry by an administrator.
use kvarteret_personal.Prelude.{
  ℕ, Bool, true, false, String, Option, none, some, List, [], ◌∷◌, ◌++◌, if◌then◌else◌,
}
use kvarteret_personal.Exec.{Exec, ok, err, pure, modify, ◌>>=◌, ◌>>◌}
use kvarteret_personal.EmailDelivery.{
  manual, DeliveryStatus, failed, expired, ErrorCategory, idempotency_window_expired,
  EmailDeliveryRequest, Delivery,
}
use kvarteret_personal.EmailOutbox.{Outbox, enqueue}
use kvarteret_personal.EmailOutbox.Attempts.{get_delivery}

-- The exceptions of the recovery by an administrator.
pub data RecoveryError : Type 0 where
  delivery_not_found only_failed_can_be_retried : RecoveryError

abbrev pub is_window_expired : Option ErrorCategory → Bool
is_window_expired (some idempotency_window_expired) = true
is_window_expired _ = false

-- The test of `_load_retryable_row`.
unfoldable pub can_retry : DeliveryStatus → Option ErrorCategory → Bool
can_retry failed _ = true
can_retry expired category = is_window_expired category
can_retry _ _ = false

unfoldable pub load_retryable_row : ℕ → Exec Outbox RecoveryError Delivery
unfolding can_retry
load_retryable_row delivery_id s = elim (get_delivery delivery_id s.deliveries) [
  | none ↦ (err delivery_not_found, s)
  | some row ↦
      if can_retry row.status row.last_error_category
      then (ok row, s)
      else (err only_failed_can_be_retried, s)
]

abbrev pub successor_request : Delivery → String → ℕ → EmailDeliveryRequest
successor_request row recipient_email hex = record {
  template_key = row.template_key;
  template_version = row.template_version;
  recipient_email = recipient_email;
  business_type = row.business_type;
  business_id = row.business_id;
  idempotency_key = manual row.id hex;
  registration_id = row.registration_id;
  source_domain_event_id = row.source_domain_event_id;
  encrypted_context = row.encrypted_context;
  supersedes_delivery_id = some row.id;
}

-- A row of domain_events that a recovery writes; its payload names the two deliveries.
pub record RecoveryEvent : Type 0 where
  pub event_type : String
  pub actor_user_account_id : ℕ
  pub subject_id : ℕ
  pub delivery_id : ℕ
  pub successor_delivery_id : ℕ

-- The queue, and the audit rows of the recoveries.
pub record RecoveryLog : Type 0 where
  pub outbox : Outbox
  pub events : List RecoveryEvent

module _ {A : Type 0} where
  abbrev in_outbox : Exec Outbox RecoveryError A → Exec RecoveryLog RecoveryError A
  in_outbox m s = let (r, outbox) = m s.outbox in (r, record s { outbox = outbox })

-- `_create_successor`, with the UUID and the hex number of the successor.
abbrev create_successor : Delivery → String → ℕ → ℕ → ℕ → Exec Outbox RecoveryError ℕ
create_successor row recipient_email successor_id hex now s =
    let ((successor, _), s') =
      enqueue (successor_request row recipient_email hex) successor_id now s in
    (ok successor, s')

-- The row that `_record_admin_recovery_event` inserts: none without a registration.
abbrev pub recovery_events : Delivery → ℕ → String → ℕ → List RecoveryEvent
recovery_events row actor action successor = elim row.registration_id [
  | none ↦ []
  | some registration_id ↦
      record {
        event_type = action;
        actor_user_account_id = actor;
        subject_id = registration_id;
        delivery_id = row.id;
        successor_delivery_id = successor;
      }
      ∷ []
]

unfoldable pub retry_failed : ℕ → ℕ → ℕ → ℕ → ℕ → Exec RecoveryLog RecoveryError ℕ
unfolding load_retryable_row
retry_failed delivery_id actor successor_id hex now = do
  row ← in_outbox (load_retryable_row delivery_id)
  successor ← in_outbox (create_successor row row.recipient_email successor_id hex now)
  modify (λ (s : RecoveryLog). record s {
    events = s.events ++ recovery_events row actor "email_delivery_retried" successor;
  })
  pure successor
