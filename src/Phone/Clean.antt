-- ===== src/Phone/Clean.antt =====
-- The cleaning step of app/shared/phone_numbers.py on "+" and digits.

use kvarteret_personal.Prelude.{
  ℕ, zero, suc, ◌≡◌, refl, Bool, true, false, none, some, String, arith, Bool-cases, inl, inr,
}
use kvarteret_personal.Text.{strip, is_nonempty, lstrip, rstrip, all_digits}
use kvarteret_personal.Phone.{
  plus, clean_phone_input, digits_of, has_alpha, plain_spaces, squeeze, trunk_digits,
  drop_trunk_zero,
}

rstrip-digits : (d : String) → all_digits d ≡ true → rstrip d ≡ d
unfolding rstrip
rstrip-digits String.[] h = refl
rstrip-digits (String.◌∷◌ c s) h = ground (arith, rstrip-digits s)

plain_spaces-digits : (d : String) → all_digits d ≡ true → plain_spaces d ≡ d
plain_spaces-digits String.[] h = refl
plain_spaces-digits (String.◌∷◌ c s) h = ground (arith, plain_spaces-digits s)

squeeze-digits : (d : String) (w : Bool) → all_digits d ≡ true → squeeze w d ≡ d
unfolding squeeze
squeeze-digits String.[] w h = refl
squeeze-digits (String.◌∷◌ c s) w h = ground (arith, squeeze-digits s false)

pub digits_of-digits : (d : String) → all_digits d ≡ true → digits_of d ≡ d
unfolding digits_of
digits_of-digits String.[] h = refl
digits_of-digits (String.◌∷◌ c s) h = ground (arith, digits_of-digits s)

pub has_alpha-digits : (d : String) → all_digits d ≡ true → has_alpha d ≡ false
unfolding has_alpha
has_alpha-digits String.[] h = refl
has_alpha-digits (String.◌∷◌ c s) h = ground (arith, has_alpha-digits s)

trunk_digits-digits :
    (n : ℕ) (seen : Bool) (d : String) → all_digits d ≡ true → trunk_digits n seen d ≡ none
unfolding trunk_digits
trunk_digits-digits n seen String.[] h = refl
trunk_digits-digits zero seen (String.◌∷◌ c s) h = ground arith
trunk_digits-digits (suc n) seen (String.◌∷◌ c s) h = ground (arith, trunk_digits-digits n true s)

strip-plus : (d : String) → all_digits d ≡ true → strip (plus d) ≡ plus d
unfolding strip lstrip rstrip
strip-plus d h =
    rw (rstrip-digits d h) (elim (Bool-cases (is_nonempty d)) [ inl e ↦ rw e | inr e ↦ rw e ])

drop_trunk_zero-plus : (d : String) → all_digits d ≡ true → drop_trunk_zero (plus d) ≡ plus d
unfolding drop_trunk_zero
drop_trunk_zero-plus d h = rw (trunk_digits-digits 3 false d h)

pub clean-plus :
    (d : String) → all_digits d ≡ true → clean_phone_input (some (plus d)) ≡ some (plus d)
unfolding clean_phone_input squeeze
clean-plus d h =
    simp
      (strip-plus d h, plain_spaces-digits d h, drop_trunk_zero-plus d h, squeeze-digits d false h)
