-- ===== src/Examples/Limits.antt =====
-- The theorem on rate limits at four hits of two keys.
use kvarteret_personal.Prelude.{ℕ, ◌≤◌, ◌≡◌, refl, List, [], ◌∷◌, String, arith}
use kvarteret_personal.RateLimit.{Counter, Hit, delete_stale, upsert_and_count, hit}
use kvarteret_personal.RateLimit.Window.{accepted, window_bound}

abbrev hit_at : String → ℕ → Hit
hit_at key now = record { key = key; limit = 2; window_seconds = 60; now = now }

-- The window of the key `login` is over.
abbrev old_rows : List Counter
old_rows = record { key = "login"; last_used = 100; count = 9 } ∷ []

abbrev later_hits : List Hit
later_hits = hit_at "login" 1010 ∷ hit_at "sms" 1020 ∷ hit_at "login" 1060 ∷ []

two_accepted : accepted "login" (hit_at "login" 1000 ∷ later_hits) old_rows ≡ 2
unfolding accepted hit delete_stale upsert_and_count
two_accepted = refl

window_bound_example : accepted "login" (hit_at "login" 1000 ∷ later_hits) old_rows ≤ 2
window_bound_example =
    window_bound (hit_at "login" 1000) later_hits old_rows ((λ e. omega arith), tt)
      (
        (omega arith, omega arith, λ e. (refl, refl)),
        (
          (omega arith, omega arith, λ e. (refl, refl)),
          ((omega arith, omega arith, λ e. (refl, refl)), tt),
        ),
      )
