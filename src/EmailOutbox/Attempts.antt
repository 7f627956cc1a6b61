-- ===== src/EmailOutbox/Attempts.antt =====
-- app/email_outbox_repository.py: the attempts and how they end.
use kvarteret_personal.Prelude.{
  find_first, update_where, ℕ, suc, ◌+◌, Option, none, some, List, [], ◌∷◌, ◌++◌, ◌==◌,
  if◌then◌else◌, min,
}
use kvarteret_personal.Exec.{ok, err}
use kvarteret_personal.EmailDelivery.{
  sent, AttemptStage, prepare, smtp, AttemptOutcome, started, succeeded, ErrorCategory, Delivery,
  Attempt,
}
use kvarteret_personal.EmailOutbox.{Outbox, OutboxExec, no_row}

-- `get_delivery_row_or_none`
unfoldable pub get_delivery : ℕ → List Delivery → Option Delivery
get_delivery delivery_id = find_first (λ (d : Delivery). d.id == delivery_id)

abbrev pub new_attempt : ℕ → ℕ → ℕ → ℕ → Attempt
new_attempt id delivery_id attempt_no now = record {
  id = id;
  delivery_id = delivery_id;
  attempt_no = attempt_no;
  stage = prepare;
  outcome = started;
  error_category = none;
  duration_ms = none;
  started_at = now;
  finished_at = none;
}

-- The attempt's id, its number and the registration of the delivery.
unfoldable pub start_attempt : ℕ → ℕ → OutboxExec (ℕ × ℕ × Option ℕ)
start_attempt delivery_id now s = elim (get_delivery delivery_id s.deliveries) [
  | none ↦ (err no_row, s)
  | some delivery ↦
      let attempt_no = delivery.automatic_attempt_count + 1 in
      (
        ok (s.next_attempt_id, attempt_no, delivery.registration_id),
        record s {
          attempts = s.attempts ++ new_attempt s.next_attempt_id delivery_id attempt_no now ∷ [];
          next_attempt_id = suc s.next_attempt_id;
          deliveries =
              update_where (λ (d : Delivery). d.id == delivery_id)
                (λ (d : Delivery). record d {
                  automatic_attempt_count = attempt_no;
                  updated_at = now;
                })
                s.deliveries;
        },
      )
]

abbrev pub earlier : ℕ → Option ℕ → Option ℕ
earlier t none = some t
earlier t (some u) = some (min t u)

-- MIN(started_at) over the attempts of a delivery
unfoldable pub first_attempt_at : ℕ → List Attempt → Option ℕ
first_attempt_at delivery_id [] = none
first_attempt_at delivery_id (a ∷ rows) =
    let rest = first_attempt_at delivery_id rows in
    if a.delivery_id == delivery_id then earlier a.started_at rest else rest

abbrev pub set_attempt_stage : ℕ → AttemptStage → Outbox → Outbox
set_attempt_stage attempt_id stage s = record s {
  attempts =
      update_where (λ (a : Attempt). a.id == attempt_id)
        (λ (a : Attempt). record a { stage = stage }) s.attempts;
}

unfoldable pub finish_success : ℕ → ℕ → ℕ → ℕ → Outbox → Outbox
finish_success delivery_id attempt_id now duration_ms s = record s {
  attempts =
      update_where (λ (a : Attempt). a.id == attempt_id)
        (λ (a : Attempt). record a {
          stage = smtp;
          outcome = succeeded;
          duration_ms = some duration_ms;
          finished_at = some now;
        })
        s.attempts;
  deliveries =
      update_where (λ (d : Delivery). d.id == delivery_id)
        (λ (d : Delivery). record d {
          status = sent;
          sent_at = some now;
          updated_at = now;
          lease_owner = none;
          lease_until = none;
          encrypted_context = none;
          last_error_category = none;
        })
        s.deliveries;
}

-- The last argument is the update of the row that `delivery_values` describes.
unfoldable pub finish_failure :
    ℕ
    → ℕ
    → AttemptStage
    → AttemptOutcome
    → ErrorCategory
    → ℕ
    → ℕ
    → (Delivery → Delivery)
    → Outbox
    → Outbox
finish_failure delivery_id attempt_id stage outcome category duration_ms now delivery_values s =
    record s {
      attempts =
          update_where (λ (a : Attempt). a.id == attempt_id)
            (λ (a : Attempt). record a {
              stage = stage;
              outcome = outcome;
              error_category = some category;
              duration_ms = some duration_ms;
              finished_at = some now;
            })
            s.attempts;
      deliveries =
          update_where (λ (d : Delivery). d.id == delivery_id) delivery_values s.deliveries;
    }
