-- ===== src/RateLimit/Window.antt =====
-- The hits of one window of app/db/rate_limit.py.
use kvarteret_personal.Prelude.{
  ℕ, ◌+◌, ◌≤◌, ◌<◌, ◌≡◌, inl, inr, refl, sym, ap, subst, ◌∙◌, Bool, true, false, List, [], ◌∷◌,
  some, String, All, arith, max, leb, ltb, str_eq, eq_iff, if◌then◌else◌, Bool-cases,
}
use kvarteret_personal.RateLimit.{
  Counter, Hit, stale_row_max_age, find_counter, delete_stale, bump, upsert_and_count, hit,
}

-- How many of the hits of a key are accepted.
unfoldable pub accepted : String → List Hit → List Counter → ℕ
accepted k [] rows = 0
accepted k (h ∷ hs) rows =
    let rest = accepted k hs (hit h rows).1 in
    if str_eq h.key k then (if (hit h rows).0 then rest + 1 else rest) else rest

find-delete_stale :
    (k : String) (now : ℕ) (rows : List Counter) (d : Counter)
    → now ≤ d.last_used + stale_row_max_age
    → find_counter k rows ≡ some d
    → find_counter k (delete_stale now rows) ≡ some d
unfolding delete_stale
find-delete_stale k now [] d h e = cc
find-delete_stale k now (c ∷ rows) d h e = elim (Bool-cases (str_eq c.key k)) [
  | inl same ↦ ground (arith, same)
  | inr other ↦ ground (arith, other, find-delete_stale k now rows d h)
]

upsert_same :
    (h : Hit) (rows : List Counter) (d : Counter)
    → find_counter h.key rows ≡ some d
    → ((upsert_and_count h rows).0 ≡ (bump h d).count)
      × (find_counter h.key (upsert_and_count h rows).1 ≡ some (bump h d))
unfolding upsert_and_count
upsert_same h [] d e = cc
upsert_same h (c ∷ rows) d e =
    (ground (arith, upsert_same h rows d), ground (arith, upsert_same h rows d))

upsert_other :
    (h : Hit) (k : String) (rows : List Counter)
    → str_eq h.key k ≡ false
    → find_counter k (upsert_and_count h rows).1 ≡ find_counter k rows
unfolding upsert_and_count
upsert_other h k [] ne = rw ne
upsert_other h k (c ∷ rows) ne = ground (arith, eq_iff c.key h.key, upsert_other h k rows ne)

hit_same :
    (h : Hit) (rows : List Counter) (d : Counter)
    → h.now ≤ d.last_used + h.window_seconds
    → h.now ≤ d.last_used + stale_row_max_age
    → find_counter h.key rows ≡ some d
    → ((hit h rows).0 ≡ leb (d.count + 1) h.limit)
      × (find_counter h.key (hit h rows).1 ≡ some (record d { count = d.count + 1 }))
unfolding hit
hit_same h rows d le fresh e =
    let (n, f) =
      upsert_same h (delete_stale h.now rows) d (find-delete_stale h.key h.now rows d fresh e) in
    (ap (λ x. leb x h.limit) n ∙ ground arith, f ∙ ground arith)

hit_other :
    (h : Hit) (k : String) (rows : List Counter) (d : Counter)
    → str_eq h.key k ≡ false
    → h.now ≤ d.last_used + stale_row_max_age
    → find_counter k rows ≡ some d
    → find_counter k (hit h rows).1 ≡ some d
unfolding hit
hit_other h k rows d ne fresh e =
    upsert_other h k (delete_stale h.now rows) ne ∙ find-delete_stale k h.now rows d fresh e

-- The hit falls into the window that began at `start`, and into a day; on the key itself it has
-- this limit and this window.
abbrev pub InWindow : String → ℕ → ℕ → ℕ → Hit → Type 0
InWindow k limit window start h =
    (h.now ≤ start + window)
    × (h.now ≤ start + stale_row_max_age)
    × (str_eq h.key k ≡ true → (h.limit ≡ limit) × (h.window_seconds ≡ window))

-- One more hit, which is accepted if the count stays within the limit.
count_step :
    (b : Bool) (rest n limit : ℕ)
    → b ≡ leb (n + 1) limit
    → rest + (n + 1) ≤ max limit (n + 1)
    → (if b then rest + 1 else rest) + n ≤ max limit n
count_step b rest n limit h le = ground arith

accepted_within :
    (k : String) (limit window : ℕ) (hs : List Hit) (rows : List Counter) (d : Counter)
    → All (InWindow k limit window d.last_used) hs
    → find_counter k rows ≡ some d
    → accepted k hs rows + d.count ≤ max limit d.count
unfolding accepted
accepted_within k limit window [] rows d a e = omega arith
accepted_within k limit window (h ∷ hs) rows d a e = elim (Bool-cases (str_eq h.key k)) [
  | inl same ↦
      let (its_limit, its_window) = a.0.2 same in
      let key = (eq_iff h.key k).0 same in
      let (n, f) =
        hit_same h rows d (rw its_window a.0.0) a.0.1 (ap (λ x. find_counter x rows) key ∙ e) in
      let rest =
        accepted_within k limit window hs (hit h rows).1 (record d { count = d.count + 1 }) a.1
          (ap (λ x. find_counter x (hit h rows).1) (sym key) ∙ f) in
      rw same (
        count_step (hit h rows).0 (accepted k hs (hit h rows).1) d.count limit
          (n ∙ ap (leb (d.count + 1)) its_limit) rest)
  | inr other ↦
      let rest =
        accepted_within k limit window hs (hit h rows).1 d a.1
          (hit_other h k rows d other a.0.1 e) in
      rw other rest
]

-- The rows of the key have windows that are over.
abbrev pub StartsWindow : Hit → List Counter → Type 0
StartsWindow h =
    All (λ (c : Counter). str_eq c.key h.key ≡ true → c.last_used + h.window_seconds < h.now)

delete_stale-StartsWindow :
    (h : Hit) (now : ℕ) (rows : List Counter)
    → StartsWindow h rows
    → StartsWindow h (delete_stale now rows)
unfolding delete_stale
delete_stale-StartsWindow h now [] s = tt
delete_stale-StartsWindow h now (c ∷ rows) s =
    elim (Bool-cases (ltb (c.last_used + stale_row_max_age) now)) [
      | inl old ↦ rw old (delete_stale-StartsWindow h now rows s.1)
      | inr kept ↦ rw kept (s.0, delete_stale-StartsWindow h now rows s.1)
    ]

-- The first hit of a window counts to one.
upsert_first :
    (h : Hit) (rows : List Counter)
    → StartsWindow h rows
    → (d : Counter) × ((upsert_and_count h rows).0 ≡ 1)
      × (find_counter h.key (upsert_and_count h rows).1 ≡ some d)
      × (d.last_used ≡ h.now)
      × (d.count ≡ 1)
unfolding upsert_and_count
upsert_first h [] s = (
  record { key = h.key; last_used = h.now; count = 1 },
  refl,
  rw ((eq_iff h.key h.key).1 refl),
  refl,
  refl,
)
upsert_first h (c ∷ rows) s = elim (Bool-cases (str_eq c.key h.key)) [
  | inl same ↦
      let over = s.0 same in
      rw same (bump h c, ground arith, ground arith, ground arith, ground arith)
  | inr other ↦ let (d, p, q, r, t) = upsert_first h rows s.1 in rw other (d, p, rw other q, r, t)
]

hit_first :
    (h : Hit) (rows : List Counter)
    → StartsWindow h rows
    → (d : Counter) × ((hit h rows).0 ≡ leb 1 h.limit)
      × (find_counter h.key (hit h rows).1 ≡ some d)
      × (d.last_used ≡ h.now)
      × (d.count ≡ 1)
unfolding hit
hit_first h rows s =
    let (d, p, q, r, t) =
      upsert_first h (delete_stale h.now rows) (delete_stale-StartsWindow h h.now rows s) in
    (d, ap (λ x. leb x h.limit) p, q, r, t)

first_step :
    (b : Bool) (rest limit n : ℕ)
    → b ≡ leb 1 limit
    → n ≡ 1
    → rest + n ≤ max limit n
    → (if b then rest + 1 else rest) ≤ limit
first_step b rest limit n h e le = ground arith

-- In one window, which a first hit begins after the window before has passed, at most `limit` hits
-- of a key are accepted. The hits of the key all have this limit and this window; other keys may be
-- hit in between. Every hit comes within the window, and within the day after which rows are
-- deleted.
pub window_bound :
    (h : Hit) (hs : List Hit) (rows : List Counter)
    → StartsWindow h rows
    → All (InWindow h.key h.limit h.window_seconds h.now) hs
    → accepted h.key (h ∷ hs) rows ≤ h.limit
unfolding accepted
window_bound h hs rows s a =
    let (d, p, q, r, t) = hit_first h rows s in
    let rest =
      accepted_within h.key h.limit h.window_seconds hs (hit h rows).1 d
        (subst (λ x. All (InWindow h.key h.limit h.window_seconds x) hs) (sym r) a) q in
    rw ((eq_iff h.key h.key).1 refl)
      (first_step (hit h rows).0 (accepted h.key hs (hit h rows).1) h.limit d.count p t rest)
