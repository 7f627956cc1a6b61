-- ===== src/Courses.antt =====
-- app/domain/courses/service.py over app/domain/courses/repository.py, on the tables that role
-- assignments share. What the service asks of its repository by a name, a method or a column of a
-- row, is looked up by that name here too; a method that is missing is an AttributeError and a column
-- a KeyError.
pub mod Completions
pub mod Missing
use kvarteret_personal.Prelude.{
  ℕ, suc, ◌+◌, ◌*◌, Bool, true, false, not, ◌&&◌, ◌||◌, Option, none, some, List, [], ◌∷◌, ◌++◌,
  String, ltb, ◌==◌, str_eq, any, filter_by, map, find_first, update_where, length, is_some,
  if◌then◌else◌,
}
use kvarteret_personal.Text.{strip, is_nonempty}
use kvarteret_personal.Semester.{format_semester_code}
use kvarteret_personal.Exec.{Exec, ok, pure, raise, gets, modify, raise_if, or_raise, ◌>>=◌, ◌>>◌}
use kvarteret_personal.RoleAssignments.{
  CourseRow, CourseCompletion, Positions, volunteer_exists, course_exists, course_completion_exists,
  create_course_completion, fetch_course_completion_record, delete_course_completion,
}

pub data CoursesError : Type 0 where
  invalid_completion duplicate_completion completion_not_found delete_blocked : CoursesError
  attribute_error key_error : CoursesError

abbrev pub CoursesExec : Type 0 → Type 0
CoursesExec A = Exec Positions CoursesError A

-- The methods of CoursesRepository.
abbrev pub repository_methods : List String
repository_methods =
    "list_courses" ∷ "get_course_detail" ∷ "create_course" ∷ "update_course" ∷ "delete_course"
    ∷ "create_course_completion" ∷ "create_course_completions_bulk" ∷ "delete_course_completion"
    ∷ "find_completion" ∷ "course_exists" ∷ "volunteer_exists" ∷ "list_existing_volunteer_ids"
    ∷ "course_completion_exists" ∷ "list_existing_course_completion_volunteer_ids"
    ∷ "_get_course_delete_blockers" ∷ []

-- `self.repository.name`
abbrev pub need_method : String → CoursesExec (Unit {0})
need_method name = raise_if (not (any (str_eq name) repository_methods)) attribute_error

-- The columns that find_completion selects, with their values.
abbrev pub to_columns : Option CourseCompletion → Option (List (String × ℕ))
to_columns none = none
to_columns (some c) = some (("id", c.id) ∷ ("course_id", c.course_id) ∷ [])

unfoldable pub find_completion : ℕ → Positions → Option (List (String × ℕ))
find_completion completion_id s = to_columns (fetch_course_completion_record completion_id s)

-- `row[name]`
abbrev pub column : String → List (String × ℕ) → Option ℕ
column name [] = none
column name ((k, v) ∷ row) = if str_eq k name then some v else column name row

abbrev stripped : Option String → Option String
stripped none = none
stripped (some text) = if is_nonempty (strip text) then some (strip text) else none

unfoldable pub create_course : String → Option String → CoursesExec ℕ
create_course name description = do
  id ← gets (λ (s : Positions). s.next_course_id)
  modify (λ (s : Positions). record s {
    courses =
        s.courses
        ++ record { id = s.next_course_id; name = strip name; description = stripped description }
          ∷ [];
    next_course_id = suc s.next_course_id;
  })
  pure id

unfoldable pub update_course : ℕ → String → Option String → CoursesExec Bool
update_course course_id name description = do
  found ← gets (course_exists course_id)
  modify (λ (s : Positions). record s {
    courses =
        update_where (λ (c : CourseRow). c.id == course_id)
          (λ (c : CourseRow). record c { name = strip name; description = stripped description })
          s.courses;
  })
  pure found

-- Whether the course has completions, which is what blocks its deletion.
abbrev pub has_completions : ℕ → Positions → Bool
has_completions course_id s = any (λ (c : CourseCompletion). c.course_id == course_id) s.completions

unfoldable pub delete_course : ℕ → CoursesExec Bool
delete_course course_id = do
  need_method "get_course_delete_blockers"
  blocked ← gets (has_completions course_id)
  raise_if blocked delete_blocked
  found ← gets (course_exists course_id)
  modify (λ (s : Positions). record s {
    courses = filter_by (λ (c : CourseRow). not (c.id == course_id)) s.courses;
  })
  pure found

-- `_build_semester_code`
unfoldable pub build_completion_code : ℕ → ℕ → CoursesExec ℕ
unfolding format_semester_code
build_completion_code year term = do
  raise_if (ltb year 1900 || ltb 3000 year) invalid_completion
  raise_if (not (term == 1 || term == 2)) invalid_completion
  raise_if (not (is_some (format_semester_code (some (year * 10 + term))))) invalid_completion
  pure (year * 10 + term)

unfoldable pub create_completion : ℕ → ℕ → ℕ → ℕ → CoursesExec ℕ
unfolding build_completion_code
create_completion course_id volunteer_id year term = do
  semester_code ← build_completion_code year term
  known ← gets (course_exists course_id)
  raise_if (not known) invalid_completion
  found ← gets (volunteer_exists volunteer_id)
  raise_if (not found) invalid_completion
  taken ← gets (course_completion_exists volunteer_id course_id semester_code)
  raise_if taken duplicate_completion
  id ← gets (λ (s : Positions). s.next_completion_id)
  modify (create_course_completion volunteer_id course_id semester_code)
  pure id

-- `len(set(ids)) != len(ids)`
abbrev pub has_repeats : List ℕ → Bool
has_repeats [] = false
has_repeats (id ∷ ids) = any (λ other. other == id) ids || has_repeats ids

-- One insert of several rows.
unfoldable pub create_course_completions_bulk : ℕ → ℕ → List ℕ → Positions → Positions
create_course_completions_bulk course_id semester_code [] s = s
create_course_completions_bulk course_id semester_code (v ∷ ids) s =
    create_course_completions_bulk course_id semester_code ids
      (create_course_completion v course_id semester_code s)

abbrev is_nil : List ℕ → Bool
is_nil [] = true
is_nil (_ ∷ _) = false

-- `dupes` is not empty if one of the ids has a completion already, and `missing` if one is no
-- volunteer's.
unfoldable pub create_completions : ℕ → List ℕ → ℕ → ℕ → CoursesExec ℕ
unfolding build_completion_code create_course_completions_bulk
create_completions course_id ids year term = do
  semester_code ← build_completion_code year term
  raise_if (is_nil ids) invalid_completion
  raise_if (has_repeats ids) invalid_completion
  known ← gets (course_exists course_id)
  raise_if (not known) invalid_completion
  missing ← gets (λ s. any (λ v. not (volunteer_exists v s)) ids)
  raise_if missing invalid_completion
  dupes ← gets (λ s. any (λ v. course_completion_exists v course_id semester_code s) ids)
  raise_if dupes duplicate_completion
  modify (create_course_completions_bulk course_id semester_code ids)
  pure (length ids)

unfoldable pub delete_completion : ℕ → ℕ → CoursesExec (Unit {0})
unfolding find_completion
delete_completion course_id completion_id = do
  found ← gets (find_completion completion_id)
  row ← or_raise found completion_not_found
  id ← or_raise (column "id_kurs" row) key_error
  raise_if (not (id == course_id)) completion_not_found
  modify (delete_course_completion completion_id)
