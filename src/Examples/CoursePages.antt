-- ===== src/Examples/CoursePages.antt =====
-- The theorems on courses at one course, and two volunteers who complete it.
use kvarteret_personal.Prelude.{ℕ, ◌≡◌, ◌⊎◌, none, some, [], ◌∷◌, arith}
use kvarteret_personal.Exec.{err}
use kvarteret_personal.Volunteers.{VolunteerRecord}
use kvarteret_personal.RoleAssignments.{CourseCompletion, Positions, fetch_course_completion_record}
use kvarteret_personal.RoleAssignments.Integrity.{IsValid}
use kvarteret_personal.Courses.{
  attribute_error, key_error, completion_not_found, delete_course, delete_completion,
  create_completion, create_completions,
}
use kvarteret_personal.Courses.Missing.{deletions_raise}
use kvarteret_personal.Courses.Completions.{create_completions-IsValid}

abbrev volunteer_row : ℕ → VolunteerRecord
volunteer_row id = record {
  id = id;
  first_name = some "Kari";
  last_name = "Nordmann";
  email = none;
  gender = "";
  birth_date = none;
  street_address = none;
  postal_code = none;
  phone = none;
}

abbrev one_course : Positions
one_course = record {
  people = record {
    records = volunteer_row 11 ∷ volunteer_row 12 ∷ [];
    photos = [];
    assignments = [];
    next_volunteer_id = 13;
    next_assignment_id = 1;
    invalidated = [];
  };
  roles = [];
  groups = [];
  courses = record { id = 2; name = "Skjenkekurs"; description = none } ∷ [];
  completions =
      record { id = 1; volunteer_id = 11; course_id = 2; completed_semester = 20261 } ∷ [];
  next_completion_id = 2;
  next_course_id = 3;
}

one_course-IsValid : IsValid one_course
one_course-IsValid = record {
  fresh_assignments = tt;
  assignments_apart = tt;
  fresh_completions = (omega arith, tt);
  completions_apart = (tt, tt);
}

create_completions-IsValid_example :
    IsValid (create_completion 2 12 2026 2 one_course).1
    × IsValid (create_completions 2 (11 ∷ 12 ∷ []) 2026 2 one_course).1
create_completions-IsValid_example =
    create_completions-IsValid 2 12 2026 2 (11 ∷ 12 ∷ []) one_course one_course-IsValid

deletions_raise_example :
    (delete_course 2 one_course ≡ (err attribute_error, one_course))
    × (((fetch_course_completion_record 1 one_course ≡ none)
          × (delete_completion 2 1 one_course ≡ (err completion_not_found, one_course)))
        ⊎ ((row : CourseCompletion) × (fetch_course_completion_record 1 one_course ≡ some row)
            × (delete_completion 2 1 one_course ≡ (err key_error, one_course))))
deletions_raise_example = deletions_raise 2 1 one_course
