-- ===== src/RoleAssignments/Outcomes.antt =====
-- What the operations of app/domain/role_assignments/service.py leave behind, in one description
-- for each: the write they make, after checks that leave the state alone.
use kvarteret_personal.Prelude.{
  ℕ, Bool, true, false, not, Option, none, some, ◌≡◌, refl, ◌⊎◌, inl, inr, arith, ◌==◌, ltb, ◌||◌,
  ◌*◌, ◌+◌, ◌&&◌, Bool-cases, is_some, if◌then◌else◌,
}
use kvarteret_personal.Semester.{format_semester_code}
use kvarteret_personal.Exec.{ok, err, pure, gets, modify, raise_if, or_raise, ◌>>=◌, ◌>>◌, Result}
use kvarteret_personal.Volunteers.{RoleAssignment}
use kvarteret_personal.RoleAssignments.{
  CourseCompletion, Positions, PositionsExec, RoleAssignmentsError, build_semester_code,
  volunteer_exists, course_exists, course_completion_exists, create_course_completion,
  fetch_course_completion_record, delete_course_completion, role_belongs_to_group,
  role_assignment_exists, create_role_assignment, fetch_role_assignment_record,
  update_role_assignment, delete_role_assignment, invalidate,
}
use kvarteret_personal.RoleAssignments.Service.{
  add_course_completion, delete_course_completion_for_volunteer, add_role_assignment,
  update_role_assignment_for_volunteer, delete_role_assignment_for_volunteer, PositionCall,
  add_completion, delete_completion, add_role, update_role, delete_role, call_position,
}

-- The year and the term of a real semester.
abbrev pub is_real_semester : ℕ → ℕ → Bool
is_real_semester year term = not (ltb year 1900 || ltb 3000 year) && (term == 1 || term == 2)

always_labelled : (n : ℕ) → is_some (format_semester_code (some n)) ≡ true
unfolding format_semester_code
always_labelled n = ground arith

-- A test of a row that may be missing.
abbrev pub holds_of : {A : Type 0} → (A → Bool) → Option A → Bool
holds_of g none = false
holds_of g (some a) = g a

-- If the condition holds, the operation returns and makes the write; if not, it raises and leaves
-- the state alone.
abbrev pub Decides :
    Bool
    → (Positions → Positions)
    → Positions
    → Result RoleAssignmentsError (Unit {0}) × Positions
    → Type 0
Decides b write s r =
    ((b ≡ true) × (r ≡ (ok tt, write s)))
    ⊎ ((b ≡ false) × (e : RoleAssignmentsError) × (r ≡ (err e, s)))

module _ (write : Positions → Positions) (s : Positions) where
  -- `if not b: raise e`
  Decides-require :
      (b g : Bool) (e : RoleAssignmentsError) (rest : PositionsExec (Unit {0}))
      → Decides g write s (rest s)
      → Decides (b && g) write s ((raise_if (not b) e >> rest) s)
  unfolding ◌>>=◌ raise_if
  Decides-require true g e rest d = d
  Decides-require false g e rest d = inr (refl, e, refl)

  Decides-or_raise :
      {A : Type 0} (o : Option A) (g : A → Bool) (e : RoleAssignmentsError)
      (rest : A → PositionsExec (Unit {0}))
      → ((a : A) → Decides (g a) write s (rest a s))
      → Decides (holds_of g o) write s ((or_raise o e >>= rest) s)
  unfolding ◌>>=◌ or_raise
  Decides-or_raise none g e rest d = inr (refl, e, refl)
  Decides-or_raise (some a) g e rest d = d a

  Decides-gets :
      {A : Type 0} (f : Positions → A) (g : Bool) (rest : A → PositionsExec (Unit {0}))
      → Decides g write s (rest (f s) s)
      → Decides g write s ((gets f >>= rest) s)
  unfolding ◌>>=◌ gets
  Decides-gets f g rest d = d

  build_cases :
      (year term : ℕ) (e : RoleAssignmentsError)
      → build_semester_code year term e s
        ≡ (if is_real_semester year term then ok (year * 10 + term) else err e, s)
  unfolding build_semester_code ◌>>=◌ raise_if pure
  build_cases year term e = elim (Bool-cases (ltb year 1900 || ltb 3000 year)) [
    | inl out ↦ rw out refl
    | inr within ↦ elim (Bool-cases (term == 1 || term == 2)) [
      | inl real ↦ rw (within, real, always_labelled (year * 10 + term)) refl
      | inr unreal ↦ rw (within, unreal) refl
    ]
  ]

  Decides-build :
      (year term : ℕ) (g : Bool) (e : RoleAssignmentsError) (rest : ℕ → PositionsExec (Unit {0}))
      → Decides g write s (rest (year * 10 + term) s)
      → Decides
          (is_real_semester year term && g)
          write
          s
          ((build_semester_code year term e >>= rest) s)
  unfolding ◌>>=◌
  Decides-build year term g e rest d = elim (Bool-cases (is_real_semester year term)) [
    | inl real ↦ rw (build_cases year term e, real) d
    | inr unreal ↦ rw (build_cases year term e, unreal) (inr (refl, e, refl))
  ]

-- The last check, and the write.
Decides-write :
    (b : Bool) (e : RoleAssignmentsError) (w : Positions → Positions) (v : ℕ) (s : Positions)
    → Decides
        (not b)
        (λ t. invalidate v (w t))
        s
        ((raise_if b e >> (modify w >> modify (invalidate v))) s)
unfolding ◌>>=◌ modify raise_if
Decides-write true e w v s = inr (refl, e, refl)
Decides-write false e w v s = inl (refl, refl)

Decides-write_if :
    (b : Bool) (e : RoleAssignmentsError) (w : Positions → Positions) (v : ℕ) (s : Positions)
    → Decides b
        (λ t. invalidate v (w t))
        s
        ((raise_if (not b) e >> (modify w >> modify (invalidate v))) s)
unfolding ◌>>=◌ modify raise_if
Decides-write_if true e w v s = inl (refl, refl)
Decides-write_if false e w v s = inr (refl, e, refl)

ruleset decides_rules = (
  Decides-require, Decides-or_raise, Decides-gets, Decides-build, Decides-write, Decides-write_if,
)

-- What an operation asks of the state.
unfoldable pub accepts : ℕ → PositionCall → Positions → Bool
accepts v (add_completion course year term) s =
    is_real_semester year term
    && (volunteer_exists v s
        && (course_exists course s && not (course_completion_exists v course (year * 10 + term) s)))
accepts v (delete_completion id) s =
    holds_of (λ (c : CourseCompletion). c.volunteer_id == v) (fetch_course_completion_record id s)
accepts v (add_role group role year term signed) s =
    is_real_semester year term
    && (volunteer_exists v s
        && (role_belongs_to_group group role s
            && not (role_assignment_exists v group role (year * 10 + term) none s)))
accepts v (update_role id group role year term signed) s =
    holds_of
      (λ (a : RoleAssignment).
        a.volunteer_id == v
        && (is_real_semester year term
            && (role_belongs_to_group group role s
                && not (role_assignment_exists v group role (year * 10 + term) (some id) s))))
      (fetch_role_assignment_record id s)
accepts v (delete_role id) s =
    holds_of (λ (a : RoleAssignment). a.volunteer_id == v) (fetch_role_assignment_record id s)

-- The statement it runs.
unfoldable pub written : ℕ → PositionCall → Positions → Positions
written v (add_completion course year term) s =
    create_course_completion v course (year * 10 + term) s
written v (delete_completion id) s = delete_course_completion id s
written v (add_role group role year term signed) s =
    create_role_assignment v group role (year * 10 + term) signed s
written v (update_role id group role year term signed) s =
    update_role_assignment id group role (year * 10 + term) signed s
written v (delete_role id) s = delete_role_assignment id s

-- The state behind an operation that returns.
unfoldable pub completed : ℕ → PositionCall → Positions → Positions
unfolding written
completed v call s = invalidate v (written v call s)

-- An operation returns exactly if the volunteer, the course or the role and the semester are real
-- and the row is not there yet, or, of a row that it changes or deletes, the row is the volunteer's.
-- Then it makes its one write and drops the volunteer from the cache. Otherwise it raises, and
-- nothing has changed.
pub call_position-Decides :
    (v : ℕ) (call : PositionCall) (s : Positions)
    → Decides (accepts v call s) (completed v call) s (call_position v call s)
unfolding call_position accepts written completed add_course_completion
    delete_course_completion_for_volunteer add_role_assignment update_role_assignment_for_volunteer
    delete_role_assignment_for_volunteer
call_position-Decides v (add_completion course year term) s = search decides_rules depth 20
call_position-Decides v (delete_completion id) s =
    Decides-gets (completed v (delete_completion id)) s (fetch_course_completion_record id) _ _ (
      Decides-or_raise (completed v (delete_completion id)) s (fetch_course_completion_record id s)
        (λ (c : CourseCompletion). c.volunteer_id == v) _ _ (λ row. search decides_rules depth 20))
call_position-Decides v (add_role group role year term signed) s = search decides_rules depth 20
call_position-Decides v (update_role id group role year term signed) s =
    Decides-gets (completed v (update_role id group role year term signed)) s
      (fetch_role_assignment_record id) _ _
      (Decides-or_raise (completed v (update_role id group role year term signed)) s
        (fetch_role_assignment_record id s)
        (λ (a : RoleAssignment).
          a.volunteer_id == v
          && (is_real_semester year term
              && (role_belongs_to_group group role s
                  && not (role_assignment_exists v group role (year * 10 + term) (some id) s))))
        _ _ (λ row. search decides_rules depth 20))
call_position-Decides v (delete_role id) s =
    Decides-gets (completed v (delete_role id)) s (fetch_role_assignment_record id) _ _ (
      Decides-or_raise (completed v (delete_role id)) s (fetch_role_assignment_record id s)
        (λ (a : RoleAssignment). a.volunteer_id == v) _ _ (λ row. search decides_rules depth 20))
