-- ===== src/Examples/Semesters.antt =====
-- The theorems on semester codes at concrete codes.
use kvarteret_personal.Prelude.{◌≡◌, ◌≢◌, refl, some, none, inl, inr, ◌≤◌, ◌<◌, ℕ, arith}
use kvarteret_personal.Semester.{
  get_current_semester_code, get_next_semester_code, default_target_semester,
}
use kvarteret_personal.Semester.Order.{
  IsSemester, next_successor, current-next, default_target_least, default_target_total,
}

next_runs : get_next_semester_code 20262 ≡ some 20271
unfolding get_next_semester_code
next_runs = refl

next_successor_example :
    IsSemester 20271 × (20262 < 20271) × ((e : ℕ) → IsSemester e → 20262 < e → 20271 ≤ e)
next_successor_example = next_successor 20262 20271 next_runs

current-next_example :
    get_next_semester_code (get_current_semester_code 2026 9)
    ≡ some (get_current_semester_code 2027 3)
current-next_example = current-next 2026 9 (omega arith) (omega arith)

target_runs : default_target_semester 20262 20241 ≡ some 20262
unfolding default_target_semester
target_runs = refl

default_target_least_example :
    IsSemester 20262
    × (20241 < 20262)
    × (20262 ≤ 20262)
    × ((e : ℕ) → IsSemester e → 20241 < e → 20262 ≤ e → 20262 ≤ e)
default_target_least_example =
    default_target_least 20262 20241 20262 (inr refl) (inl refl) target_runs

default_target_total_example : default_target_semester 20262 20271 ≢ none
default_target_total_example = default_target_total 20262 20271 (inl refl)
