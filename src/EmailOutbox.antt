-- ===== src/EmailOutbox.antt =====
-- app/email_outbox_repository.py: the queue and the leases. Rows that another
-- transaction has locked are the argument `locked`; new delivery ids and lease owners, UUIDs in
-- the program, are arguments. The handler of an IntegrityError in `enqueue` answers an insert of
-- the same key by another transaction in between, which does not happen here.
pub mod Attempts
pub mod Service
pub mod Lease
use kvarteret_personal.Prelude.{
  find_first, update_where, ℕ, suc, ◌+◌, Bool, true, false, not, ◌&&◌, ◌||◌, Option, none, some,
  List, [], ◌∷◌, ◌++◌, map, leb, ltb, ◌==◌, any, filter_by, take, length, if◌then◌else◌, min,
}
use kvarteret_personal.Text.{strip, lower}
use kvarteret_personal.Exec.{
  Exec, Result, ok, err, pure, raise, or_raise, gets, modify, ◌>>=◌, ◌>>◌,
}
use kvarteret_personal.EmailDelivery.{
  IdempotencyKey, same_key, DeliveryStatus, pending, sent, AttemptStage, prepare, smtp,
  AttemptOutcome, started, interrupted, succeeded, ErrorCategory, EmailDeliveryRequest, Delivery,
  Attempt,
}

-- The two tables, and the deliveries for which `send_email` was called, in order, by whichever
-- attempt: what has left the system, which no table holds.
pub record Outbox : Type 0 where
  pub deliveries : List Delivery
  pub attempts : List Attempt
  pub next_attempt_id : ℕ
  pub sends : List ℕ

-- The NoResultFound of a row that is missing.
pub data OutboxError : Type 0 where
  no_row : OutboxError

abbrev pub OutboxExec : Type 0 → Type 0
OutboxExec A = Exec Outbox OutboxError A

unfoldable pub find_key : IdempotencyKey → List Delivery → Option Delivery
find_key k = find_first (λ (d : Delivery). same_key d.idempotency_key k)

abbrev pub new_delivery : EmailDeliveryRequest → ℕ → ℕ → Delivery
new_delivery r delivery_id now = record {
  id = delivery_id;
  template_key = r.template_key;
  template_version = r.template_version;
  recipient_email = lower (strip r.recipient_email);
  business_type = r.business_type;
  business_id = r.business_id;
  source_domain_event_id = r.source_domain_event_id;
  idempotency_key = r.idempotency_key;
  status = pending;
  automatic_attempt_count = 0;
  next_attempt_at = now;
  lease_owner = none;
  lease_until = none;
  last_error_category = none;
  encrypted_context = r.encrypted_context;
  registration_id = r.registration_id;
  supersedes_delivery_id = r.supersedes_delivery_id;
  created_at = now;
  updated_at = now;
  sent_at = none;
}

abbrev answer_key : EmailDeliveryRequest → ℕ → ℕ → Outbox → Option Delivery → (ℕ × Bool) × Outbox
answer_key request delivery_id now s (some existing) = ((existing.id, false), s)
answer_key request delivery_id now s none = (
  (delivery_id, true),
  record s { deliveries = s.deliveries ++ new_delivery request delivery_id now ∷ [] },
)

-- The id of the delivery, and whether it was created.
unfoldable pub enqueue : EmailDeliveryRequest → ℕ → ℕ → Outbox → (ℕ × Bool) × Outbox
enqueue request delivery_id now s =
    answer_key request delivery_id now s (find_key request.idempotency_key s.deliveries)

abbrev is_pending : DeliveryStatus → Bool
is_pending pending = true
is_pending _ = false

-- `lease_until IS NULL OR lease_until <= now`
abbrev pub lease_free : Option ℕ → ℕ → Bool
lease_free none now = true
lease_free (some until) now = leb until now

-- The WHERE clause of `claim_due`.
abbrev pub is_due : ℕ → Delivery → Bool
is_due now d = is_pending d.status && leb d.next_attempt_at now && lease_free d.lease_until now

-- ORDER BY next_attempt_at, created_at
abbrev before : Delivery → Delivery → Bool
before a b =
    ltb a.next_attempt_at b.next_attempt_at
    || (a.next_attempt_at == b.next_attempt_at && leb a.created_at b.created_at)

unfoldable pub insert_by_due : Delivery → List Delivery → List Delivery
insert_by_due d [] = d ∷ []
insert_by_due d (e ∷ es) = if before d e then d ∷ e ∷ es else e ∷ insert_by_due d es

unfoldable pub sort_by_due : List Delivery → List Delivery
unfolding insert_by_due
sort_by_due [] = []
sort_by_due (d ∷ ds) = insert_by_due d (sort_by_due ds)

unfoldable pub due_rows : ℕ → ℕ → (ℕ → Bool) → List Delivery → List Delivery
unfolding sort_by_due
due_rows batch_size now locked ds =
    take batch_size
      (sort_by_due (filter_by (λ (d : Delivery). is_due now d && not (locked d.id)) ds))

abbrev is_started : AttemptOutcome → Bool
is_started started = true
is_started _ = false

abbrev started_for : ℕ → Attempt → Bool
started_for delivery_id a = a.delivery_id == delivery_id && is_started a.outcome

-- The attempts of a delivery that had started and never finished become interrupted.
abbrev interrupt_attempts : Option ℕ → ℕ → ℕ → List Attempt → List Attempt
interrupt_attempts none delivery_id now attempts = attempts
interrupt_attempts (some _) delivery_id now attempts =
    update_where (started_for delivery_id)
      (λ (a : Attempt). record a { outcome = interrupted; finished_at = some now }) attempts

abbrev interrupted_in : Option ℕ → ℕ → List Attempt → ℕ
interrupted_in none delivery_id attempts = 0
interrupted_in (some _) delivery_id attempts = length (filter_by (started_for delivery_id) attempts)

abbrev take_lease : ℕ → ℕ → ℕ → Delivery → Delivery
take_lease owner until now d = record d {
  lease_owner = some owner;
  lease_until = some until;
  updated_at = now;
}

-- The body of the loop of `claim_due`, for one row.
unfoldable pub claim_row : ℕ → ℕ → (ℕ → ℕ) → Delivery → Outbox → Outbox
claim_row now lease_duration owner row s = record s {
  attempts = interrupt_attempts row.lease_until row.id now s.attempts;
  deliveries =
      update_where (λ (d : Delivery). d.id == row.id)
        (take_lease (owner row.id) (now + lease_duration) now) s.deliveries;
}

unfoldable pub claim_rows : ℕ → ℕ → (ℕ → ℕ) → List Delivery → Outbox → (List ℕ × ℕ) × Outbox
unfolding claim_row
claim_rows now lease_duration owner [] s = (([], 0), s)
claim_rows now lease_duration owner (row ∷ rows) s =
    let count = interrupted_in row.lease_until row.id s.attempts in
    let ((claimed, interrupted_count), s') =
      claim_rows now lease_duration owner rows (claim_row now lease_duration owner row s) in
    ((row.id ∷ claimed, count + interrupted_count), s')

unfoldable pub claim_due : ℕ → ℕ → ℕ → (ℕ → Bool) → (ℕ → ℕ) → Outbox → (List ℕ × ℕ) × Outbox
unfolding due_rows claim_rows
claim_due batch_size now lease_duration locked owner s =
    claim_rows now lease_duration owner (due_rows batch_size now locked s.deliveries) s
