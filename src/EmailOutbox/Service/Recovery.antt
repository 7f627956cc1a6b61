-- ===== src/EmailOutbox/Service/Recovery.antt =====
-- The idempotency keys of the queue, and the retry by an administrator in
-- app/email_outbox_service.py.
use kvarteret_personal.Prelude.{
  ℕ, ◌+◌, ◌≤◌, ◌≡◌, ◌↔◌, ◌⊎◌, refl, true, false, none, some, List, [], ◌∷◌, ◌++◌, arith,
  if◌then◌else◌, Bool-cases, inl, inr, Option-cases, length, filter_by, ap, eq_iff, String_key,
}
use kvarteret_personal.Exec.{ok, err, modify, pure, ◌>>=◌}
use kvarteret_personal.EmailDelivery.{
  Template, same_template, IdempotencyKey, same_key, manual, domain_event, other_text,
  EmailDeliveryRequest, Delivery, pending, failed, expired, idempotency_window_expired,
}
use kvarteret_personal.EmailOutbox.{Outbox, find_key, enqueue, new_delivery}
use kvarteret_personal.EmailOutbox.Attempts.{get_delivery}
use kvarteret_personal.EmailOutbox.Service.Manual.{
  successor_request, only_failed_can_be_retried, can_retry, load_retryable_row, retry_failed,
  RecoveryLog, recovery_events,
}

same_template_iff : (s t : Template) → (same_template s t ≡ true) ↔ (s ≡ t)
same_template_iff s t = (λ h. ground arith, λ h. ground arith)

pub same_key_refl : (k : IdempotencyKey) → same_key k k ≡ true
same_key_refl (domain_event a t) = ground (arith, same_template_iff t t)
same_key_refl (manual a n) = ground arith
same_key_refl (other_text a) = (eq_iff a a).1 refl

same_key-eq : (j k : IdempotencyKey) → same_key j k ≡ true → j ≡ k
same_key-eq (domain_event a s) (domain_event b t) h = ground (arith, same_template_iff s t)
same_key-eq (domain_event a s) (manual b n) h = cc
same_key-eq (manual a n) (domain_event b t) h = cc
same_key-eq (manual a m) (manual b n) h = ground arith
same_key-eq (other_text a) (other_text b) h = ap other_text ((eq_iff a b).0 h)
same_key-eq (other_text a) (domain_event b t) h = cc
same_key-eq (other_text a) (manual b n) h = cc
same_key-eq (domain_event a s) (other_text b) h = cc
same_key-eq (manual a m) (other_text b) h = cc

find_key-append :
    (k : IdempotencyKey) (d : Delivery) (ds : List Delivery)
    → find_key k ds ≡ none
    → same_key d.idempotency_key k ≡ true
    → find_key k (ds ++ d ∷ []) ≡ some d
unfolding find_key
find_key-append k d [] h e = rw e
find_key-append k d (x ∷ ds) h e = ground (arith, find_key-append k d ds)

pub enqueue_new :
    (r : EmailDeliveryRequest) (id now : ℕ) (s : Outbox)
    → find_key r.idempotency_key s.deliveries ≡ none
    → enqueue r id now s
      ≡ ((id, true), record s { deliveries = s.deliveries ++ new_delivery r id now ∷ [] })
unfolding enqueue
enqueue_new r id now s e = rw e

pub enqueue_old :
    (r : EmailDeliveryRequest) (id now : ℕ) (s : Outbox) {d : Delivery}
    → find_key r.idempotency_key s.deliveries ≡ some d
    → enqueue r id now s ≡ ((d.id, false), s)
unfolding enqueue
enqueue_old r id now s e = rw e

-- A request that is enqueued again gets the id of the first time, and the queue does not change.
pub enqueue_again :
    (r : EmailDeliveryRequest) (id now id' now' : ℕ) (s : Outbox)
    → enqueue r id' now' (enqueue r id now s).1
      ≡ (((enqueue r id now s).0.0, false), (enqueue r id now s).1)
enqueue_again r id now id' now' s = elim (Option-cases (find_key r.idempotency_key s.deliveries)) [
  | inl e ↦
      let d = new_delivery r id now in
      rw (enqueue_new r id now s e) (
        enqueue_old r id' now' (record s { deliveries = s.deliveries ++ d ∷ [] }) {d = d}
          (find_key-append r.idempotency_key d s.deliveries e (same_key_refl r.idempotency_key)))
  | inr (d, e) ↦ rw (enqueue_old r id now s e) (enqueue_old r id' now' s e)
]

-- How many deliveries have the key.
unfoldable pub key_count : IdempotencyKey → List Delivery → ℕ
key_count k ds = length (filter_by (λ (d : Delivery). same_key d.idempotency_key k) ds)

-- The unique constraint of the table.
abbrev pub HasUniqueKeys : Outbox → Type 0
HasUniqueKeys s = (k : IdempotencyKey) → key_count k s.deliveries ≤ 1

key_count-append :
    (k : IdempotencyKey) (d : Delivery) (ds : List Delivery)
    → key_count k (ds ++ d ∷ []) ≡ key_count k ds + (if same_key d.idempotency_key k then 1 else 0)
unfolding key_count
key_count-append k d [] = ground arith
key_count-append k d (x ∷ ds) = ground (arith, key_count-append k d ds)

key_count_absent :
    (k : IdempotencyKey) (ds : List Delivery) → find_key k ds ≡ none → key_count k ds ≡ 0
unfolding key_count find_key
key_count_absent k [] h = refl
key_count_absent k (x ∷ ds) h = ground (arith, key_count_absent k ds)

-- A queue without two deliveries of one idempotency key has none after a request is enqueued.
pub enqueue-HasUniqueKeys :
    (r : EmailDeliveryRequest) (id now : ℕ) (s : Outbox)
    → HasUniqueKeys s
    → HasUniqueKeys (enqueue r id now s).1
enqueue-HasUniqueKeys r id now s h k =
    elim (Option-cases (find_key r.idempotency_key s.deliveries)) [
      | inl e ↦
          let d = new_delivery r id now in
          rw (enqueue_new r id now s e) (
            rw (key_count-append k d s.deliveries)
              (elim (Bool-cases (same_key r.idempotency_key k)) [
                | inl same ↦
                    rw
                      (
                        same,
                        key_count_absent k s.deliveries
                            (rw (same_key-eq r.idempotency_key k same) at e),
                      )
                      (omega arith)
                | inr other ↦ rw other (omega (arith, h k))
              ]))
      | inr (d, e) ↦ rw (enqueue_old r id now s e) (h k)
    ]

-- Whether the row may be retried: it failed, or its idempotency window ran out.
abbrev pub IsRetryable : Delivery → Type 0
IsRetryable d =
    (d.status ≡ failed)
    ⊎ ((d.status ≡ expired) × (d.last_error_category ≡ some idempotency_window_expired))

can_retry_iff : (d : Delivery) → (can_retry d.status d.last_error_category ≡ true) ↔ IsRetryable d
unfolding can_retry
can_retry_iff d = (λ h. ground arith, λ h. ground arith)

-- The delivery that repeats another one.
abbrev pub IsSuccessor : ℕ → Delivery → Delivery → Type 0
IsSuccessor successor_id d e =
    (e.id ≡ successor_id)
    × (e.status ≡ pending)
    × (e.supersedes_delivery_id ≡ some d.id)
    × (e.template_key ≡ d.template_key)
    × (e.encrypted_context ≡ d.encrypted_context)

-- An administrator's retry of a delivery that is in the queue, where the key of the successor is
-- not. Either it may be retried, and the queue gets one new delivery with the given id, which
-- supersedes the old one, repeats its template and its context and waits to be sent, and where the old
-- one is of a registration the log gets one row, of this administrator and the two deliveries; or it
-- may not, and the retry is refused. The old deliveries stay as they were.
pub retry_failed_cases :
    (k actor successor_id hex now : ℕ) (s : RecoveryLog) (d : Delivery)
    → get_delivery k s.outbox.deliveries ≡ some d
    → find_key (manual d.id hex) s.outbox.deliveries ≡ none
    → (IsRetryable d
        × (e : Delivery) × (retry_failed k actor successor_id hex now s ≡ (
          ok successor_id,
          record {
            outbox = record s.outbox { deliveries = s.outbox.deliveries ++ e ∷ [] };
            events = s.events ++ recovery_events d actor "email_delivery_retried" successor_id;
          },
        ))
        × IsSuccessor successor_id d e)
      ⊎ ((¬ IsRetryable d)
          × (retry_failed k actor successor_id hex now s ≡ (err only_failed_can_be_retried, s)))
unfolding retry_failed ◌>>=◌ modify pure
retry_failed_cases k actor successor_id hex now s d g fresh =
    elim (Bool-cases (can_retry d.status d.last_error_category)) [
      | inl allowed ↦
          let r = successor_request d d.recipient_email hex in
          inl (
            (can_retry_iff d).0 allowed,
            new_delivery r successor_id now,
            rw (g, load_retryable_row)
                (rw allowed (rw (enqueue_new r successor_id now s.outbox fresh))),
            (refl, refl, refl, refl, refl),
          )
      | inr refused ↦
          inr (λ h. cc (refused, (can_retry_iff d).1 h), rw (g, load_retryable_row) (rw refused))
    ]
