-- ===== src/Courses/Completions.antt =====
-- The completions that app/domain/courses/service.py registers, one or many at a time.
use kvarteret_personal.Prelude.{
  ℕ, ◌+◌, ◌*◌, ◌≡◌, refl, ◌∙◌, inl, inr, Bool, true, false, not, ◌||◌, List, [], ◌∷◌, ◌++◌, ◌==◌,
  ltb, any, arith, is_some, Bool-cases, some,
}
use kvarteret_personal.Semester.{format_semester_code}
use kvarteret_personal.Exec.{pure, gets, modify, raise_if, ◌>>=◌, ◌>>◌}
use kvarteret_personal.RoleAssignments.{
  CourseCompletion, Positions, course_exists, volunteer_exists, course_completion_exists,
  create_course_completion,
}
use kvarteret_personal.RoleAssignments.Integrity.{IsValid, add_completion-IsValid}
use kvarteret_personal.Courses.{
  CoursesError, CoursesExec, build_completion_code, create_completion, has_repeats,
  create_course_completions_bulk, create_completions,
}

module _ {A : Type 0} (P : Positions → Type 0) (s : Positions) (start : P s) where
  -- A test of the state that raises, and what may follow it.
  after_test :
      (f : Positions → Bool) (e : CoursesError) (rest : CoursesExec A)
      → (f s ≡ false → P (rest s).1)
      → P ((gets f >>= λ b. raise_if b e >> rest) s).1
  unfolding ◌>>=◌ gets raise_if
  after_test f e rest h = elim (Bool-cases (f s)) [
    | inl raised ↦ rw raised start
    | inr passed ↦ rw passed (h passed)
  ]

  after_need :
      (f : Positions → Bool) (e : CoursesError) (rest : CoursesExec A)
      → P (rest s).1
      → P ((gets f >>= λ b. raise_if (not b) e >> rest) s).1
  unfolding ◌>>=◌ gets raise_if
  after_need f e rest h = elim (Bool-cases (f s)) [
    | inl passed ↦ rw passed h
    | inr raised ↦ rw raised start
  ]

  after_raise_if :
      (b : Bool) (e : CoursesError) (rest : CoursesExec A)
      → (b ≡ false → P (rest s).1)
      → P ((raise_if b e >> rest) s).1
  unfolding ◌>>=◌ raise_if
  after_raise_if true e rest h = start
  after_raise_if false e rest h = h refl

  after_code :
      (year term : ℕ) (rest : ℕ → CoursesExec A)
      → ((code : ℕ) → P (rest code s).1)
      → P ((build_completion_code year term >>= rest) s).1
  unfolding build_completion_code ◌>>=◌ raise_if pure
  after_code year term rest h = elim (Bool-cases (ltb year 1900 || ltb 3000 year)) [
    | inl out ↦ rw out start
    | inr within ↦ elim (Bool-cases (term == 1 || term == 2)) [
      | inr unreal ↦ rw (within, unreal) start
      | inl real ↦ elim (Bool-cases (is_some (format_semester_code (some (year * 10 + term))))) [
        | inl shown ↦ rw (within, real, shown) (h (year * 10 + term))
        | inr hidden ↦ rw (within, real, hidden) start
      ]
    ]
  ]

after_write :
    {A : Type 0} (P : Positions → Type 0) (s : Positions) (w : Positions → Positions) (a : A)
    → P (w s)
    → P ((modify {E = CoursesError} w >> pure a) s).1
unfolding ◌>>=◌ modify pure
after_write P s w a h = h

after_numbered :
    {A : Type 0} (P : Positions → Type 0) (s : Positions) (f : Positions → A)
    (w : Positions → Positions)
    → P (w s)
    → P ((gets {E = CoursesError} f >>= λ id. modify w >> pure id) s).1
unfolding ◌>>=◌ gets modify pure
after_numbered P s f w h = h

create_completion-IsValid :
    (course volunteer year term : ℕ) (s : Positions)
    → IsValid s
    → IsValid (create_completion course volunteer year term s).1
unfolding create_completion
create_completion-IsValid course volunteer year term s valid =
    after_code IsValid s valid year term _ (λ code.
      after_need IsValid s valid (course_exists course) _ _ (
        after_need IsValid s valid (volunteer_exists volunteer) _ _ (
          after_test IsValid s valid (course_completion_exists volunteer course code) _ _ (λ free.
            after_numbered IsValid s _ _
              (add_completion-IsValid volunteer course code s free valid)))))

head_false : (b c : Bool) → b || c ≡ false → b ≡ false
head_false false c h = refl
head_false true c h = absurd cc

tail_false : (b c : Bool) → b || c ≡ false → c ≡ false
tail_false false c h = h
tail_false true c h = absurd cc

any-append :
    (p : CourseCompletion → Bool) (xs ys : List CourseCompletion)
    → any p (xs ++ ys) ≡ any p xs || any p ys
any-append p [] ys = refl
any-append p (x ∷ xs) ys = ground (arith, any-append p xs ys)

-- The other volunteers' completions are as before one is added.
other_completion :
    (v w course code : ℕ) (s : Positions)
    → w == v ≡ false
    → course_completion_exists w course code s ≡ false
    → course_completion_exists w course code (create_course_completion v course code s) ≡ false
other_completion v w course code s ne free =
    any-append _ s.completions _ ∙ rw free (ground (arith, ne))

others_free :
    (v course code : ℕ) (ids : List ℕ) (s : Positions)
    → any (λ w. w == v) ids ≡ false
    → any (λ w. course_completion_exists w course code s) ids ≡ false
    → any
        (λ w. course_completion_exists w course code (create_course_completion v course code s))
        ids
      ≡ false
others_free v course code [] s ne free = refl
others_free v course code (w ∷ ids) s ne free =
    rw (other_completion v w course code s (ground (arith, ne)) (head_false _ _ free))
      (others_free v course code ids s (ground (arith, ne)) (tail_false _ _ free))

bulk-IsValid :
    (course code : ℕ) (ids : List ℕ) (s : Positions)
    → has_repeats ids ≡ false
    → any (λ v. course_completion_exists v course code s) ids ≡ false
    → IsValid s
    → IsValid (create_course_completions_bulk course code ids s)
unfolding create_course_completions_bulk
bulk-IsValid course code [] s once free valid = valid
bulk-IsValid course code (v ∷ ids) s once free valid =
    bulk-IsValid course code ids (create_course_completion v course code s)
      (tail_false (any (λ w. w == v) ids) _ once)
      (others_free v course code ids s (head_false _ (has_repeats ids) once) (tail_false _ _ free))
      (add_completion-IsValid v course code s (head_false _ _ free) valid)

-- Completions of a course, registered one at a time or for many volunteers at once, do not make a
-- volunteer complete a course twice in one semester, whether the operation returns or raises.
pub create_completions-IsValid :
    (course volunteer year term : ℕ) (ids : List ℕ) (s : Positions)
    → IsValid s
    → IsValid (create_completion course volunteer year term s).1
      × IsValid (create_completions course ids year term s).1
unfolding create_completions modify pure
create_completions-IsValid course volunteer year term ids s valid = (
  create_completion-IsValid course volunteer year term s valid,
  after_code IsValid s valid year term _ (λ code. after_raise_if IsValid s valid _ _ _ (λ some_ids.
      after_raise_if IsValid s valid (has_repeats ids) _ _ (λ once.
        after_need IsValid s valid (course_exists course) _ _ (
          after_test IsValid s valid _ _ _ (λ real.
            after_test IsValid s valid
              (λ s. any (λ v. course_completion_exists v course code s) ids) _ _
              (λ free.
                after_write IsValid s (create_course_completions_bulk course code ids) _
                  (bulk-IsValid course code ids s once free valid))))))),
)
