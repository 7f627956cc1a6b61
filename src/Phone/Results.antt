-- ===== src/Phone/Results.antt =====
-- The numbers that app/shared/phone_numbers.py returns, and the library's part in them.
use kvarteret_personal.Prelude.{
  ◌≡◌, ◌≢◌, ◌⊎◌, inl, inr, refl, true, Option, none, some, String, arith, str_eq, eq_iff,
  Bool-cases, Option-cases, ◌&&◌, sym, ◌∙◌,
}
use kvarteret_personal.Phone.{
  PhoneNumbers, required, required_e164, accepted, digits_of, has_alpha, startswith,
  norwegian_phone_fallback, clean_phone_input, parse_phone_number, analyze_phone_number,
  analyze_parsed, analyze_cleaned, normalize_required_phone_number, require_e164_phone_number,
}

module _ (lib : PhoneNumbers) where
  open lib use {PhoneNumber, parse, is_possible_number, is_valid_number, format_number}

  -- The result is the fallback, or the E.164 text of a number that the library parsed from the
  -- cleaned input and calls possible and valid.
  abbrev pub IsSound : String → String → String → Type 0
  IsSound cleaned region r =
      (r ≡ norwegian_phone_fallback)
      ⊎ ((n : PhoneNumber) × (parse_phone_number lib cleaned region ≡ some n)
          × (is_possible_number n ≡ true)
          × (is_valid_number n ≡ true)
          × (r ≡ format_number n))

  analyze_parsed-IsSound :
      (value : Option String) (cleaned region r : String) (o : Option PhoneNumber)
      → parse_phone_number lib cleaned region ≡ o
      → (analyze_parsed lib value cleaned o).normalized ≡ some r
      → IsSound cleaned region r
  unfolding analyze_parsed
  analyze_parsed-IsSound value cleaned region r none p h = cc
  analyze_parsed-IsSound value cleaned region r (some n) p h =
      inr (n, p, ground arith, ground arith, ground arith)

  analyze_cleaned-IsSound :
      (value : Option String) (cleaned region r : String)
      → (analyze_cleaned lib value region (some cleaned)).normalized ≡ some r
      → IsSound cleaned region r
  unfolding analyze_cleaned
  analyze_cleaned-IsSound value cleaned region r h = elim (Bool-cases (has_alpha cleaned)) [
    | inl letters ↦ absurd (ground arith)
    | inr none_found ↦
        elim (Bool-cases (startswith cleaned "+" && str_eq (digits_of cleaned) "4700000000")) [
          | inl known ↦ inl (ground arith)
          | inr other ↦
              analyze_parsed-IsSound value cleaned region r (parse_phone_number lib cleaned region)
                refl (ground arith)
        ]
  ]

  cleaned-analyze_cleaned :
      (value o : Option String) (region : String) → (analyze_cleaned lib value region o).cleaned ≡ o
  unfolding analyze_cleaned analyze_parsed
  cleaned-analyze_cleaned value none region = refl
  cleaned-analyze_cleaned value (some c) region = ground arith

  required_parts :
      (cleaned normalized : Option String) (r : String)
      → required cleaned normalized ≡ accepted r
      → (cleaned ≢ none) × (normalized ≡ some r)
  required_parts cleaned normalized r h = (ground arith, ground arith)

  required_e164_parts :
      (cleaned normalized : Option String) (r : String)
      → required_e164 cleaned normalized ≡ accepted r
      → (required cleaned normalized ≡ accepted r) × (cleaned ≡ some r)
  required_e164_parts none normalized r h = cc
  required_e164_parts (some c) none r h = cc
  required_e164_parts (some c) (some n) r h =
      (ground (arith, eq_iff c n), ground (arith, eq_iff c n))

  -- A number that is accepted is the fallback number, or the E.164 text of a number that the library
  -- parsed from the cleaned input and calls possible and valid.
  pub required-IsSound :
      (value : Option String) (region r : String)
      → normalize_required_phone_number lib value region ≡ accepted r
      → (cleaned : String) × (clean_phone_input value ≡ some cleaned) × IsSound cleaned region r
  unfolding normalize_required_phone_number analyze_phone_number
  required-IsSound value region r h =
      let (present, found) = required_parts _ _ r h in
      elim (Option-cases (clean_phone_input value)) [
        | inl e ↦ absurd (present (cleaned-analyze_cleaned value _ region ∙ e))
        | inr (c, e) ↦ (c, e, analyze_cleaned-IsSound value c region r (rw e at found))
      ]

  -- The strict check accepts what the lenient one accepts, where the input is already normal.
  pub e164-required :
      (value : Option String) (region r : String)
      → require_e164_phone_number lib value region ≡ accepted r
      → (normalize_required_phone_number lib value region ≡ accepted r)
        × (clean_phone_input value ≡ some r)
  unfolding normalize_required_phone_number require_e164_phone_number analyze_phone_number
  e164-required value region r h =
      let (same, whole) = required_e164_parts _ _ r h in
      (same, sym (cleaned-analyze_cleaned value (clean_phone_input value) region) ∙ whole)
