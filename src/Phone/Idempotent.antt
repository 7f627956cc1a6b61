-- ===== src/Phone/Idempotent.antt =====
-- The numbers that app/shared/phone_numbers.py returns, given to its strict check again.
use kvarteret_personal.Prelude.{
  ◌≡◌, refl, true, none, some, String, arith, str_eq, eq_iff, Bool-cases, inl, inr, ◌∙◌, Option,
}
use kvarteret_personal.Text.{all_digits}
use kvarteret_personal.Phone.{
  PhoneNumbers, accepted, plus, digits_of, has_alpha, norwegian_phone_fallback, parse_phone_number,
  analyze_phone_number, analyze_parsed, analyze_cleaned, normalize_required_phone_number,
  require_e164_phone_number, required_e164, build_parse_candidates,
}
use kvarteret_personal.Phone.Clean.{clean-plus, digits_of-digits, has_alpha-digits}
use kvarteret_personal.Phone.Results.{required-IsSound}

-- What the code relies on in the library: the E.164 text of a valid number is "+" and digits, and
-- it is parsed, with no region, as a valid number with that same text.
pub record FormatsE164 (lib : PhoneNumbers) : Type 0 where
  pub digits : (n : lib.PhoneNumber) → lib.is_valid_number n ≡ true → String
  pub formatted :
      (n : lib.PhoneNumber) (v : lib.is_valid_number n ≡ true)
      → lib.format_number n ≡ plus (digits n v)
  pub only_digits :
      (n : lib.PhoneNumber) (v : lib.is_valid_number n ≡ true) → all_digits (digits n v) ≡ true
  pub reparsed : (n : lib.PhoneNumber) → lib.is_valid_number n ≡ true → lib.PhoneNumber
  pub reparse :
      (n : lib.PhoneNumber) (v : lib.is_valid_number n ≡ true)
      → lib.parse (lib.format_number n) none ≡ some (reparsed n v)
  pub possible :
      (n : lib.PhoneNumber) (v : lib.is_valid_number n ≡ true)
      → lib.is_possible_number (reparsed n v) ≡ true
  pub valid :
      (n : lib.PhoneNumber) (v : lib.is_valid_number n ≡ true)
      → lib.is_valid_number (reparsed n v) ≡ true
  pub same_text :
      (n : lib.PhoneNumber) (v : lib.is_valid_number n ≡ true)
      → lib.format_number (reparsed n v) ≡ lib.format_number n

module _ (lib : PhoneNumbers) where
  -- The analysis of "+" and digits that the library parses as a valid number of that text.
  abbrev IsFixed : String → Type 0
  IsFixed r = (region : String) → require_e164_phone_number lib (some r) region ≡ accepted r

  fallback-IsFixed : IsFixed norwegian_phone_fallback
  unfolding require_e164_phone_number analyze_phone_number analyze_cleaned has_alpha digits_of
  fallback-IsFixed region = rw (clean-plus "4700000000" refl)

  parse-plus :
      (d region : String) {m : lib.PhoneNumber}
      → lib.parse (plus d) none ≡ some m
      → parse_phone_number lib (plus d) region ≡ some m
  unfolding parse_phone_number build_parse_candidates
  parse-plus d region p = rw p

  required_e164_same : (r : String) → required_e164 (some r) (some r) ≡ accepted r
  required_e164_same r = ground (arith, eq_iff r r)

  analyze_parsed_valid :
      (value : Option String) (c : String) (m : lib.PhoneNumber)
      → lib.is_possible_number m ≡ true
      → lib.is_valid_number m ≡ true
      → let a = analyze_parsed lib value c (some m) in
        required_e164 a.cleaned a.normalized ≡ required_e164 (some c) (some (lib.format_number m))
  unfolding analyze_parsed
  analyze_parsed_valid value c m q v = rw (q, v)

  plus-IsFixed :
      (d : String) (m : lib.PhoneNumber)
      → all_digits d ≡ true
      → lib.parse (plus d) none ≡ some m
      → lib.is_possible_number m ≡ true
      → lib.is_valid_number m ≡ true
      → lib.format_number m ≡ plus d
      → IsFixed (plus d)
  unfolding require_e164_phone_number analyze_phone_number analyze_cleaned has_alpha digits_of
  plus-IsFixed d m ds p q v f region = rw (clean-plus d ds) (
      rw (has_alpha-digits d ds, digits_of-digits d ds)
        (elim (Bool-cases (str_eq d "4700000000")) [
          | inl e ↦ rw ((eq_iff d "4700000000").0 e)
          | inr e ↦
              rw (e, parse-plus d region p, analyze_parsed_valid (some (plus d)) (plus d) m q v, f)
                (required_e164_same (plus d))
        ]))

  module _ (laws : FormatsE164 lib) where
    format-IsFixed :
        (n : lib.PhoneNumber) → lib.is_valid_number n ≡ true → IsFixed (lib.format_number n)
    format-IsFixed n v = rw (laws.formatted n v) (
        plus-IsFixed (laws.digits n v) (laws.reparsed n v) (laws.only_digits n v)
          (rw (laws.formatted n v) at (laws.reparse n v)) (laws.possible n v) (laws.valid n v)
          (laws.same_text n v ∙ laws.formatted n v))

    -- If the library formats and parses E.164 numbers as documented, a number that was normalized
    -- once is accepted unchanged by the strict check, whatever the two default regions.
    pub required-e164 :
        (value : Option String) (region region' r : String)
        → normalize_required_phone_number lib value region ≡ accepted r
        → require_e164_phone_number lib (some r) region' ≡ accepted r
    required-e164 value region region' r h =
        let (cleaned, is_clean, sound) = required-IsSound lib value region r h in
        elim sound [
          | inl e ↦ rw e (fallback-IsFixed region')
          | inr (n, parsed, possible, valid, e) ↦ rw e (format-IsFixed n valid region')
        ]
