-- ===== src/RateLimit.antt =====
-- app/db/rate_limit.py: the limiter in the database, whose two statements of `hit` run in one
-- transaction. The clock is an argument, in seconds; a hit answers
-- whether it was accepted, where the program returns or raises RateLimitExceeded.
pub mod Window
use kvarteret_personal.Prelude.{
  find_first, ℕ, ◌+◌, ◌∷◌, [], Bool, true, false, not, List, Option, none, some, String, any,
  filter_by, leb, ltb, str_eq, if◌then◌else◌,
}

-- A row of rate_limits, and an entry of `_counters`.
pub record Counter : Type 0 where
  pub key : String
  pub last_used : ℕ
  pub count : ℕ

-- The arguments of `hit`, with the time.
pub record Hit : Type 0 where
  pub key : String
  pub limit : ℕ
  pub window_seconds : ℕ
  pub now : ℕ

-- `_STALE_ROW_MAX_AGE`
abbrev pub stale_row_max_age : ℕ
stale_row_max_age = 86400

abbrev pub find_counter : String → List Counter → Option Counter
find_counter k = find_first (λ (c : Counter). str_eq c.key k)

-- The opportunistic cleanup.
unfoldable pub delete_stale : ℕ → List Counter → List Counter
delete_stale now = filter_by (λ (c : Counter). not (ltb (c.last_used + stale_row_max_age) now))

-- The DO UPDATE part: the window is reset, or the count goes up.
abbrev pub bump : Hit → Counter → Counter
bump h c =
    if ltb (c.last_used + h.window_seconds) h.now
    then record c { last_used = h.now; count = 1 }
    else record c { count = c.count + 1 }

-- `_UPSERT_AND_COUNT`: the new count, and the rows.
unfoldable pub upsert_and_count : Hit → List Counter → ℕ × List Counter
upsert_and_count h [] = (1, record { key = h.key; last_used = h.now; count = 1 } ∷ [])
upsert_and_count h (c ∷ rows) =
    let (n, rest) = upsert_and_count h rows in
    if str_eq c.key h.key then ((bump h c).count, bump h c ∷ rows) else (n, c ∷ rest)

-- `PostgresRateLimiter.hit`
unfoldable pub hit : Hit → List Counter → Bool × List Counter
unfolding upsert_and_count delete_stale
hit h rows =
    let (current, rows') = upsert_and_count h (delete_stale h.now rows) in
    (leb current h.limit, rows')

-- `PostgresRateLimiter.clear`
unfoldable pub clear : List String → List Counter → List Counter
clear keys = filter_by (λ (c : Counter). not (any (str_eq c.key) keys))
