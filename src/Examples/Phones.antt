-- ===== src/Examples/Phones.antt =====
-- The theorems on phone numbers at a library that knows one number.
use kvarteret_personal.Prelude.{◌≡◌, refl, true, none, some, String, str_eq, ◌||◌, if◌then◌else◌}
use kvarteret_personal.Phone.{
  PhoneNumbers, accepted, clean_phone_input, normalize_required_phone_number,
  require_e164_phone_number, analyze_phone_number, analyze_cleaned, analyze_parsed,
  parse_phone_number, build_parse_candidates, has_alpha, digits_of, squeeze, drop_trunk_zero,
}
use kvarteret_personal.Text.{strip}
use kvarteret_personal.Phone.Results.{IsSound, required-IsSound}
use kvarteret_personal.Phone.Idempotent.{FormatsE164, required-e164}

abbrev pub one_number : PhoneNumbers
one_number = record {
  PhoneNumber = Unit;
  parse = λ s region. if str_eq s "91234567" || str_eq s "+4791234567" then some tt else none;
  is_possible_number = λ n. true;
  is_valid_number = λ n. true;
  format_number = λ n. "+4791234567";
}

one_number-FormatsE164 : FormatsE164 one_number
one_number-FormatsE164 = record {
  digits = λ n v. "4791234567";
  formatted = λ n v. refl;
  only_digits = λ n v. refl;
  reparsed = λ n v. tt;
  reparse = λ n v. refl;
  possible = λ n v. refl;
  valid = λ n v. refl;
  same_text = λ n v. refl;
}

required_runs :
    normalize_required_phone_number one_number (some " 912 34 567") "NO" ≡ accepted "+4791234567"
unfolding normalize_required_phone_number analyze_phone_number clean_phone_input analyze_cleaned
    parse_phone_number build_parse_candidates analyze_parsed has_alpha digits_of strip squeeze
    drop_trunk_zero
required_runs = refl

required-e164_example :
    require_e164_phone_number one_number (some "+4791234567") "SE" ≡ accepted "+4791234567"
required-e164_example =
    required-e164 one_number one_number-FormatsE164 (some " 912 34 567") "NO" "SE" "+4791234567"
      required_runs

required-IsSound_example :
    (cleaned : String) × (clean_phone_input (some " 912 34 567") ≡ some cleaned)
    × IsSound one_number cleaned "NO" "+4791234567"
required-IsSound_example =
    required-IsSound one_number (some " 912 34 567") "NO" "+4791234567" required_runs
