-- ===== src/EmailOutbox/Lease.antt =====
-- The leases that `claim_due` of app/email_outbox_repository.py takes.
use kvarteret_personal.Prelude.{
  update_where, ℕ, zero, suc, ◌+◌, ◌≤◌, ◌<◌, ◌≡◌, refl, Bool, true, false, not, ◌&&◌, ◌||◌, some,
  List, [], ◌∷◌, map, arith, ◌==◌, any, ==_iff, All, filter_by, take, length, length-take,
  Bool-cases, inl, inr, ap, ◌∙◌,
}
use kvarteret_personal.EmailDelivery.{Delivery}
use kvarteret_personal.EmailOutbox.{
  Outbox, is_due, take_lease, insert_by_due, sort_by_due, due_rows, claim_row, claim_rows,
  claim_due,
}

-- The id is among those listed.
abbrev pub listed : ℕ → List ℕ → Bool
listed k = any (λ x. x == k)

abbrev pub ids : List Delivery → List ℕ
ids = map (λ (d : Delivery). d.id)

-- No delivery with the id `k` passes the test.
abbrev pub NoneWith : ℕ → (Delivery → Bool) → List Delivery → Type 0
NoneWith k p = All (λ (d : Delivery). d.id ≡ k → p d ≡ false)

listed-insert :
    (k : ℕ) (d : Delivery) (ds : List Delivery)
    → listed k (ids (insert_by_due d ds)) ≡ listed k (d.id ∷ ids ds)
unfolding insert_by_due
listed-insert k d [] = refl
listed-insert k d (e ∷ es) = ground (arith, listed-insert k d es)

listed-sort : (k : ℕ) (ds : List Delivery) → listed k (ids (sort_by_due ds)) ≡ listed k (ids ds)
unfolding sort_by_due
listed-sort k [] = refl
listed-sort k (d ∷ ds) =
    listed-insert k d (sort_by_due ds) ∙ ap (λ b. d.id == k || b) (listed-sort k ds)

listed-take :
    (k n : ℕ) (ds : List Delivery) → listed k (ids (take n ds)) ≡ true → listed k (ids ds) ≡ true
listed-take k zero ds h = cc
listed-take k (suc n) [] h = h
listed-take k (suc n) (d ∷ ds) h = ground (arith, listed-take k n ds)

listed-filter :
    (k : ℕ) (p q : Delivery → Bool) (ds : List Delivery)
    → NoneWith k p ds
    → listed k (ids (filter_by (λ (d : Delivery). p d && q d) ds)) ≡ false
listed-filter k p q [] h = refl
listed-filter k p q (d ∷ ds) h = ground (arith, listed-filter k p q ds h.1, h.0)

-- Only what is due is selected.
pub listed-due_rows :
    (k batch now : ℕ) (locked : ℕ → Bool) (ds : List Delivery)
    → NoneWith k (is_due now) ds
    → listed k (ids (due_rows batch now locked ds)) ≡ false
unfolding due_rows
listed-due_rows k batch now locked ds h =
    let none_left = listed-filter k (is_due now) (λ (d : Delivery). not (locked d.id)) ds h in
    elim (Bool-cases (listed k (ids (due_rows batch now locked ds)))) [
      | inl e ↦ cc (
        none_left,
        listed-sort k (filter_by (λ (d : Delivery). is_due now d && not (locked d.id)) ds),
        listed-take k batch
            (sort_by_due (filter_by (λ (d : Delivery). is_due now d && not (locked d.id)) ds)) e,
      )
      | inr e ↦ e
    ]

pub claimed-ids :
    (now dur : ℕ) (owner : ℕ → ℕ) (rows : List Delivery) (s : Outbox)
    → (claim_rows now dur owner rows s).0.0 ≡ ids rows
unfolding claim_rows
claimed-ids now dur owner [] s = refl
claimed-ids now dur owner (r ∷ rows) s =
    ap (λ x. r.id ∷ x) (claimed-ids now dur owner rows (claim_row now dur owner r s))

-- Every delivery with the id `k` is leased until `t`.
abbrev pub LeasedUntil : ℕ → ℕ → List Delivery → Type 0
LeasedUntil k t = All (λ (d : Delivery). d.id ≡ k → d.lease_until ≡ some t)

module _ (k o t now : ℕ) where
  take_lease-keeps :
      (r : ℕ) (ds : List Delivery)
      → LeasedUntil k t ds
      → LeasedUntil k t (update_where (λ (d : Delivery). d.id == r) (take_lease o t now) ds)
  take_lease-keeps r [] h = tt
  take_lease-keeps r (d ∷ ds) h = (λ e. ground (arith, h.0), take_lease-keeps r ds h.1)

  take_lease-sets :
      (ds : List Delivery)
      → LeasedUntil k t (update_where (λ (d : Delivery). d.id == k) (take_lease o t now) ds)
  take_lease-sets [] = tt
  take_lease-sets (d ∷ ds) = (λ e. ground arith, take_lease-sets ds)

module _ (now dur : ℕ) (owner : ℕ → ℕ) (k : ℕ) where
  claim_rows-keeps :
      (rows : List Delivery) (s : Outbox)
      → LeasedUntil k (now + dur) s.deliveries
      → LeasedUntil k (now + dur) (claim_rows now dur owner rows s).1.deliveries
  unfolding claim_rows
  claim_rows-keeps [] s h = h
  claim_rows-keeps (r ∷ rows) s h =
      claim_rows-keeps rows (claim_row now dur owner r s)
        (take_lease-keeps k (owner r.id) (now + dur) now r.id s.deliveries h)

  claim_rows-leases :
      (rows : List Delivery) (s : Outbox)
      → listed k (ids rows) ≡ true
      → LeasedUntil k (now + dur) (claim_rows now dur owner rows s).1.deliveries
  unfolding claim_rows
  claim_rows-leases [] s h = cc
  claim_rows-leases (r ∷ rows) s h = elim (Bool-cases (r.id == k)) [
    | inl here ↦
        claim_rows-keeps rows (claim_row now dur owner r s)
          (rw ((==_iff r.id k).0 here) (take_lease-sets k (owner k) (now + dur) now s.deliveries))
    | inr there ↦ claim_rows-leases rows (claim_row now dur owner r s) (ground arith)
  ]

leased-not_due :
    (k t now : ℕ) (ds : List Delivery) → now < t → LeasedUntil k t ds → NoneWith k (is_due now) ds
leased-not_due k t now [] lt h = tt
leased-not_due k t now (d ∷ ds) lt h =
    (λ e. ground (arith, h.0 e), leased-not_due k t now ds lt h.1)

module _ (batch now dur : ℕ) (locked : ℕ → Bool) (owner : ℕ → ℕ) (batch' now' dur' : ℕ)
    (locked' : ℕ → Bool) (owner' : ℕ → ℕ) (s : Outbox) where
  -- What one worker has claimed the next claim does not take before its lease has run out,
  -- whichever rows are locked.
  pub claim_exclusive :
      (k : ℕ)
      → now' < now + dur
      → listed k (claim_due batch now dur locked owner s).0.0 ≡ true
      → listed k
          (claim_due batch' now' dur' locked' owner' (claim_due batch now dur locked owner s).1).0.0
        ≡ false
  unfolding claim_due
  claim_exclusive k lt h =
      let rows = due_rows batch now locked s.deliveries in
      let s' = (claim_rows now dur owner rows s).1 in
      rw (claimed-ids now' dur' owner' (due_rows batch' now' locked' s'.deliveries) s') (
        listed-due_rows k batch' now' locked' s'.deliveries (
          leased-not_due k (now + dur) now' s'.deliveries lt (
            claim_rows-leases now dur owner k rows s (rw (claimed-ids now dur owner rows s) at h))))

length-ids : (ds : List Delivery) → length (ids ds) ≡ length ds
length-ids [] = refl
length-ids (d ∷ ds) = ap suc (length-ids ds)

-- A claim takes at most `batch` deliveries.
pub length-claim_due :
    (batch now dur : ℕ) (locked : ℕ → Bool) (owner : ℕ → ℕ) (s : Outbox)
    → length (claim_due batch now dur locked owner s).0.0 ≤ batch
unfolding claim_due due_rows
length-claim_due batch now dur locked owner s = rw (claimed-ids, length-ids) (length-take batch _)
