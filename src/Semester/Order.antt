-- ===== src/Semester/Order.antt =====
-- The semester codes of app/shared/semester.py in the order of time.
use kvarteret_personal.Prelude.{
  ℕ, ◌+◌, ◌-◌, ◌*◌, ◌/◌, ◌%◌, ◌≤◌, ◌<◌, ◌≡◌, ◌≢◌, ◌⊎◌, ◌↔◌, none, some, arith,
}
use kvarteret_personal.Semester.{
  format_semester_code, get_current_semester_code, get_next_semester_code, default_target_semester,
}

-- A code of a real semester: its season is 1 or 2.
abbrev pub IsSemester : ℕ → Type 0
IsSemester c = (c % 10 ≡ 1) ⊎ (c % 10 ≡ 2)

-- A next semester is real and later, and no real semester lies between.
pub next_successor :
    (c d : ℕ)
    → get_next_semester_code c ≡ some d
    → IsSemester d × (c < d) × ((e : ℕ) → IsSemester e → c < e → d ≤ e)
unfolding get_next_semester_code
next_successor c d h = (ground arith, ground arith, λ e se lt. ground arith)

-- A next semester is given exactly for the codes of real semesters.
pub next-ne-none : (c : ℕ) → (get_next_semester_code c ≢ none) ↔ IsSemester c
unfolding get_next_semester_code
next-ne-none c = (λ h. ground arith, λ h. ground arith)

-- For a month from 1 to 12, the semester half a year later is the next of the current one.
pub current-next :
    (y m : ℕ)
    → 1 ≤ m
    → m ≤ 12
    → get_next_semester_code (get_current_semester_code y m)
      ≡ some (get_current_semester_code (y + m / 7) (m + 6 - 12 * (m / 7)))
unfolding get_next_semester_code get_current_semester_code
current-next y m h k = ground arith

-- For real semesters, the default target of a transfer is the first real semester that is after
-- the source and not before the current one.
pub default_target_least :
    (current source t : ℕ)
    → IsSemester current
    → IsSemester source
    → default_target_semester current source ≡ some t
    → IsSemester t
      × (source < t)
      × (current ≤ t)
      × ((e : ℕ) → IsSemester e → source < e → current ≤ e → t ≤ e)
unfolding default_target_semester
default_target_least current source t hc hs h =
    (ground arith, ground arith, ground arith, λ e he lt le. ground arith)

-- From a real source semester a target is always found.
pub default_target_total :
    (current source : ℕ) → IsSemester source → default_target_semester current source ≢ none
unfolding default_target_semester
default_target_total current source h = ground arith

-- Today's code is the code of a real semester and is never printed as a bare number.
pub current-IsSemester : (y m : ℕ) → IsSemester (get_current_semester_code y m)
unfolding get_current_semester_code
current-IsSemester y m = ground arith

-- Two codes that are shown with the same label are equal.
pub format-injective :
    (a b : ℕ) → format_semester_code (some a) ≡ format_semester_code (some b) → a ≡ b
unfolding format_semester_code
format-injective a b h = ground arith
