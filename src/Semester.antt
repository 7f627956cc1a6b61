-- ===== src/Semester.antt =====
-- app/shared/semester.py, and `_default_target_semester` of
-- app/domain/role_assignments/semester_transfer.py. A code is year * 10 + season. The clock is an
-- argument: the year and the month in UTC. The text of a label is its constructor: `spring 2026`
-- is "2026 Vår", `autumn 2026` is "2026 Høst" and `plain 7` is "7".
pub mod Order
use kvarteret_personal.Prelude.{
  ℕ, ◌+◌, ◌*◌, ◌/◌, ◌%◌, ◌≡◌, refl, Option, none, some, ltb, leb, ◌==◌, if◌then◌else◌,
}

pub data SemesterLabel : Type 0 where
  spring autumn plain : ℕ → SemesterLabel

unfoldable pub format_semester_code : Option ℕ → Option SemesterLabel
format_semester_code none = none
format_semester_code (some value) =
    let year = value / 10 in
    let season = value % 10 in
    if season == 1
    then some (spring year)
    else if season == 2
    then some (autumn year)
    else some (plain value)

unfoldable pub get_current_semester_code : ℕ → ℕ → ℕ
get_current_semester_code year month =
    let season : ℕ = if leb month 6 then 1 else 2 in year * 10 + season

-- `none` is the ValueError of an unsupported code.
unfoldable pub get_next_semester_code : ℕ → Option ℕ
get_next_semester_code value =
    let year = value / 10 in
    let season = value % 10 in
    if season == 1
    then some (year * 10 + 2)
    else if season == 2
    then some ((year + 1) * 10 + 1)
    else none

-- The argument `current` is the code of today.
unfoldable pub default_target_semester : ℕ → ℕ → Option ℕ
unfolding get_next_semester_code
default_target_semester current source_semester =
    if ltb source_semester current then some current else get_next_semester_code source_semester

format_test : format_semester_code (some 20262) ≡ some (autumn 2026)
unfolding format_semester_code
format_test = refl
