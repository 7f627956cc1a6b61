-- ===== src/Courses/Missing.antt =====
-- What app/domain/courses/service.py asks its repository for in vain.
use kvarteret_personal.Prelude.{
  ℕ, ◌≡◌, refl, inl, inr, ◌⊎◌, Option, none, some, String, ◌==◌, ap, not, List,
}
use kvarteret_personal.Exec.{err, raise_if, gets, or_raise, modify, ◌>>=◌, ◌>>◌}
use kvarteret_personal.RoleAssignments.{
  CourseCompletion, Positions, fetch_course_completion_record, delete_course_completion,
}
use kvarteret_personal.Courses.{
  attribute_error, key_error, completion_not_found, find_completion, delete_course,
  delete_completion, to_columns, column, CoursesExec,
}

-- The deletion, from what find_completion has found.
answer : ℕ → ℕ → Option (List (String × ℕ)) → CoursesExec (Unit {0})
answer course_id completion_id found = do
  row ← or_raise found completion_not_found
  id ← or_raise (column "id_kurs" row) key_error
  raise_if (not (id == course_id)) completion_not_found
  modify (delete_course_completion completion_id)

delete_from_row :
    (course_id completion_id : ℕ) (s : Positions) (o : Option CourseCompletion)
    → fetch_course_completion_record completion_id s ≡ o
    → ((o ≡ none) × (delete_completion course_id completion_id s ≡ (err completion_not_found, s)))
      ⊎ ((row : CourseCompletion) × (o ≡ some row)
          × (delete_completion course_id completion_id s ≡ (err key_error, s)))
unfolding answer delete_completion find_completion ◌>>=◌ raise_if gets or_raise modify
delete_from_row course_id completion_id s none e =
    inl (refl, ap (λ x. answer course_id completion_id (to_columns x) s) e)
delete_from_row course_id completion_id s (some row) e =
    inr (row, refl, ap (λ x. answer course_id completion_id (to_columns x) s) e)

-- No course can be deleted, and no completion from the page of a course: the first always raises an
-- AttributeError, the second a KeyError where there is a row, and that the row was not found where
-- there is none. Nothing changes.
pub deletions_raise :
    (course_id completion_id : ℕ) (s : Positions)
    → (delete_course course_id s ≡ (err attribute_error, s))
      × (((fetch_course_completion_record completion_id s ≡ none)
            × (delete_completion course_id completion_id s ≡ (err completion_not_found, s)))
          ⊎ ((row : CourseCompletion) × (fetch_course_completion_record completion_id s ≡ some row)
              × (delete_completion course_id completion_id s ≡ (err key_error, s))))
unfolding delete_course ◌>>=◌ raise_if
deletions_raise course_id completion_id s = (refl, delete_from_row course_id completion_id s _ refl)
