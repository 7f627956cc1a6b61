-- ===== src/EmailDelivery.antt =====
-- app/email_delivery.py and the rows of app/db/table_defs/email_delivery.py. Times are seconds; a
-- UUID is a number; trace ids are left out.
use kvarteret_personal.Prelude.{ℕ, Bool, true, false, Option, List, String, ◌&&◌, ◌==◌, str_eq}

pub data Template : Type 0 where
  applicant_invitation applicant_friend_invitation applicant_profile_completion : Template
  applicant_application_received recruiter_daily_digest : Template

-- `template_key in VOLUNTEER_TEMPLATE_KEYS`
abbrev pub is_volunteer_template : Template → Bool
is_volunteer_template recruiter_daily_digest = false
is_volunteer_template _ = true

abbrev pub same_template : Template → Template → Bool
same_template applicant_invitation applicant_invitation = true
same_template applicant_friend_invitation applicant_friend_invitation = true
same_template applicant_profile_completion applicant_profile_completion = true
same_template applicant_application_received applicant_application_received = true
same_template recruiter_daily_digest recruiter_daily_digest = true
same_template _ _ = false

-- The texts that serve as idempotency keys: "domain-event:{id}:{template}:applicant" of the
-- workflow, "manual:{id}:{hex}" of a successor, with its fresh hex number, and any text of another
-- form, as those of the recruitment digest.
pub data IdempotencyKey : Type 0 where
  domain_event : ℕ → Template → IdempotencyKey
  manual : ℕ → ℕ → IdempotencyKey
  other_text : String → IdempotencyKey

abbrev pub same_key : IdempotencyKey → IdempotencyKey → Bool
same_key (domain_event a s) (domain_event b t) = a == b && same_template s t
same_key (manual a m) (manual b n) = a == b && m == n
same_key (other_text a) (other_text b) = str_eq a b
same_key _ _ = false

-- The statuses that the table allows; no code of the application writes `cancelled`.
pub data DeliveryStatus : Type 0 where
  pending sent failed expired cancelled : DeliveryStatus

pub data AttemptStage : Type 0 where
  prepare render smtp : AttemptStage

pub data AttemptOutcome : Type 0 where
  started interrupted succeeded retryable_failure permanent_failure : AttemptOutcome

-- The error categories; `other` is any that the preparer or the sender names.
pub data ErrorCategory : Type 0 where
  idempotency_window_expired timeout connection unexpected : ErrorCategory
  other : String → ErrorCategory

pub record EmailDeliveryRequest : Type 0 where
  pub template_key : Template
  pub template_version : ℕ
  pub recipient_email : String
  pub business_type : String
  pub business_id : ℕ
  pub idempotency_key : IdempotencyKey
  pub registration_id : Option ℕ
  pub source_domain_event_id : Option ℕ
  pub encrypted_context : Option String
  pub supersedes_delivery_id : Option ℕ

-- A row of email_deliveries.
pub record Delivery : Type 0 where
  pub id : ℕ
  pub template_key : Template
  pub template_version : ℕ
  pub recipient_email : String
  pub business_type : String
  pub business_id : ℕ
  pub source_domain_event_id : Option ℕ
  pub idempotency_key : IdempotencyKey
  pub status : DeliveryStatus
  pub automatic_attempt_count : ℕ
  pub next_attempt_at : ℕ
  pub lease_owner : Option ℕ
  pub lease_until : Option ℕ
  pub last_error_category : Option ErrorCategory
  pub encrypted_context : Option String
  pub registration_id : Option ℕ
  pub supersedes_delivery_id : Option ℕ
  pub created_at : ℕ
  pub updated_at : ℕ
  pub sent_at : Option ℕ

-- A row of email_delivery_attempts.
pub record Attempt : Type 0 where
  pub id : ℕ
  pub delivery_id : ℕ
  pub attempt_no : ℕ
  pub stage : AttemptStage
  pub outcome : AttemptOutcome
  pub error_category : Option ErrorCategory
  pub duration_ms : Option ℕ
  pub started_at : ℕ
  pub finished_at : Option ℕ

pub record DispatchSummary : Type 0 where
  pub claimed_count : ℕ
  pub sent_count : ℕ
  pub retrying_count : ℕ
  pub failed_count : ℕ
  pub expired_count : ℕ
  pub interrupted_count : ℕ
  pub delivery_ids : List ℕ
