-- ===== src/Phone.antt =====
-- app/shared/phone_numbers.py. The library `phonenumbers` is not part of the repository: it is the
-- parameter `lib`. The classes \s, \d and isalpha of Python are read over the characters below
-- U+02C2, \d and \D over the ASCII digits.
mod Clean
pub mod Results
pub mod Idempotent
use Prim.Native.Char.{char, code}
use kvarteret_personal.Prelude.{
  ℕ, zero, suc, ◌+◌, ◌≡◌, refl, Bool, true, false, not, ◌&&◌, ◌||◌, Option, none, some, List, [],
  ◌∷◌, String, ltb, leb, ◌==◌, str_eq, if◌then◌else◌, any, is_some,
}
use kvarteret_personal.Text.{strip, lower, isdigit, is_space, is_nonempty, len}

-- What the code calls of the library; `none` of `parse` is a NumberParseException.
pub record PhoneNumbers : Type 1 where
  pub PhoneNumber : Type 0
  pub parse : String → Option String → Option PhoneNumber
  pub is_possible_number : PhoneNumber → Bool
  pub is_valid_number : PhoneNumber → Bool
  pub format_number : PhoneNumber → String

abbrev pub default_phone_region : String
default_phone_region = "NO"

abbrev pub norwegian_phone_fallback : String
norwegian_phone_fallback = "+4700000000"

pub data PhoneStatus : Type 0 where
  empty invalid normalized_status : PhoneStatus

pub data PhoneReason : Type 0 where
  empty_input contains_letters fallback unparseable not_possible not_valid fine : PhoneReason

pub record PhoneNormalizationResult : Type 0 where
  pub original : Option String
  pub cleaned : Option String
  pub normalized : Option String
  pub status : PhoneStatus
  pub reason : PhoneReason

abbrev pub is_digit : ℕ → Bool
is_digit c = leb 48 c && leb c 57

-- str.isalpha of one character
abbrev pub is_alpha : ℕ → Bool
is_alpha c =
    (leb 65 c && leb c 90)
    || (leb 97 c && leb c 122)
    || c == 170
    || c == 181
    || c == 186
    || (leb 192 c && leb c 705 && not (c == 215) && not (c == 247))

unfoldable pub has_alpha : String → Bool
has_alpha String.[] = false
has_alpha (String.◌∷◌ c s) = is_alpha (code c) || has_alpha s

-- `_DIGITS_RE.sub("", s)`: the digits alone
unfoldable pub digits_of : String → String
digits_of String.[] = String.[]
digits_of (String.◌∷◌ c s) =
    let rest = digits_of s in if is_digit (code c) then String.◌∷◌ c rest else rest

-- str.startswith with a literal, and str.removeprefix
abbrev pub drop_prefix : String → String → Option String
drop_prefix String.[] s = some s
drop_prefix (String.◌∷◌ p ps) String.[] = none
drop_prefix (String.◌∷◌ p ps) (String.◌∷◌ c s) =
    let rest = drop_prefix ps s in if code p == code c then rest else none

abbrev pub startswith : String → String → Bool
startswith s prefix = is_some (drop_prefix prefix s)

abbrev pub removeprefix : String → String → String
removeprefix s prefix = elim (drop_prefix prefix s) [ none ↦ s | some rest ↦ rest ]

-- the two calls of str.replace, of U+00A0 and U+202F by a space
abbrev pub plain_spaces : String → String
plain_spaces String.[] = String.[]
plain_spaces (String.◌∷◌ c s) =
    let rest = plain_spaces s in
    if code c == 160 || code c == 8239 then String.◌∷◌ (char 32 tt) rest else String.◌∷◌ c rest

-- `_TRUNK_ZERO_RE` from the digits on: at most `n` digits, at least one, then "(0)"; `none` is no
-- match, else the text with "(0)" left out
trunk_digits : ℕ → Bool → String → Option String
trunk_digits n seen String.[] = none
trunk_digits zero seen (String.◌∷◌ c s) = if seen then drop_prefix "(0)" (String.◌∷◌ c s) else none
trunk_digits (suc n) seen (String.◌∷◌ c s) =
    let rest = trunk_digits n true s in
    if is_digit (code c)
    then elim rest [ none ↦ none | some r ↦ some (String.◌∷◌ c r) ]
    else if seen
    then drop_prefix "(0)" (String.◌∷◌ c s)
    else none

-- `_TRUNK_ZERO_RE.sub(r"\1", s)`
unfoldable pub drop_trunk_zero : String → String
unfolding trunk_digits
drop_trunk_zero String.[] = String.[]
drop_trunk_zero (String.◌∷◌ c s) =
    let rest = trunk_digits 3 false s in
    if code c == 43
    then elim rest [ none ↦ String.◌∷◌ c s | some r ↦ String.◌∷◌ c r ]
    else String.◌∷◌ c s

-- `_WHITESPACE_RE.sub(" ", s)`; the flag says that the character before was white
unfoldable pub squeeze : Bool → String → String
squeeze white String.[] = String.[]
squeeze white (String.◌∷◌ c s) =
    let next = squeeze (is_space (code c)) s in
    if is_space (code c)
    then if white then next else String.◌∷◌ (char 32 tt) next
    else String.◌∷◌ c next

-- `cleaned or None`
abbrev pub nonempty_or_none : String → Option String
nonempty_or_none s = if is_nonempty s then some s else none

clean_stripped : String → Option String
clean_stripped s =
    if is_nonempty s
    then nonempty_or_none (
        strip (
          squeeze false
            (drop_trunk_zero (removeprefix (removeprefix (plain_spaces s) "tel:") "TEL:"))))
    else none

unfoldable pub clean_phone_input : Option String → Option String
unfolding clean_stripped
clean_phone_input none = none
clean_phone_input (some value) = clean_stripped (strip value)

-- f"+{s}" and s[2:]
abbrev plus : String → String
plus s = String.◌∷◌ (char 43 tt) s

abbrev drop_two : String → String
drop_two (String.◌∷◌ _ (String.◌∷◌ _ s)) = s
drop_two _ = String.[]

unfoldable pub build_parse_candidates : String → String → List (String × Option String)
unfolding digits_of
build_parse_candidates cleaned default_region =
    let digits = digits_of cleaned in
    if startswith cleaned "+"
    then (cleaned, none) ∷ []
    else if startswith cleaned "00" && ltb 2 (len digits)
    then (plus (drop_two digits), none) ∷ []
    else if isdigit digits && len digits == 8
    then (digits, some default_region) ∷ []
    else if startswith digits "47" && len digits == 10
    then (plus digits, none) ∷ []
    else if startswith cleaned "+" || startswith cleaned "00"
    then (cleaned, none) ∷ []
    else []

abbrev all_zero_values : List String
all_zero_values = "0" ∷ "00" ∷ "000" ∷ "0000" ∷ "00000" ∷ "000000" ∷ "0000000" ∷ "00000000" ∷ []

abbrev known_placeholder_digits : List String
known_placeholder_digits = "2147483647" ∷ "12345678" ∷ "123456789" ∷ "987654321" ∷ []

-- `len(set(s)) == 1`
only : ℕ → String → Bool
only k String.[] = true
only k (String.◌∷◌ c s) = code c == k && only k s

one_character : String → Bool
unfolding only
one_character String.[] = false
one_character (String.◌∷◌ c s) = only (code c) s

false_cleaned : String → Bool
unfolding has_alpha digits_of lower one_character
false_cleaned cleaned =
    if has_alpha cleaned
    then true
    else let digits = digits_of cleaned in
      if any (str_eq (lower cleaned)) all_zero_values
      then true
      else if ltb (len digits) 8
      then true
      else if any (str_eq digits) known_placeholder_digits
      then true
      else leb 8 (len digits) && one_character digits

unfoldable pub is_obviously_false_phone_number : Option String → Bool
unfolding clean_phone_input false_cleaned
is_obviously_false_phone_number value = elim (clean_phone_input value) [
  | none ↦ false
  | some cleaned ↦ false_cleaned cleaned
]

-- The ValueErrors of the two functions that demand a number.
pub data PhoneError : Type 0 where
  required_missing not_a_valid_number not_in_e164 : PhoneError

pub data Checked : Type 0 where
  accepted : String → Checked
  refused : PhoneError → Checked

-- The tests of `normalize_required_phone_number` and `require_e164_phone_number`.
abbrev required : Option String → Option String → Checked
required none _ = refused required_missing
required (some _) none = refused not_a_valid_number
required (some _) (some number) = accepted number

abbrev required_e164 : Option String → Option String → Checked
required_e164 none _ = refused required_missing
required_e164 (some _) none = refused not_a_valid_number
required_e164 (some cleaned) (some number) =
    if not (str_eq cleaned number) then refused not_in_e164 else accepted number

-- The functions that call the library.
module _ (lib : PhoneNumbers) where
  open lib use {PhoneNumber, parse, is_possible_number, is_valid_number, format_number}

  -- `_parse_phone_number`, the loop over the candidates
  first_parsed : List (String × Option String) → Option PhoneNumber
  first_parsed [] = none
  first_parsed ((raw_value, region) ∷ rest) =
      let later = first_parsed rest in
      elim (parse raw_value region) [ none ↦ later | some number ↦ some number ]

  unfoldable pub parse_phone_number : String → String → Option PhoneNumber
  unfolding first_parsed build_parse_candidates
  parse_phone_number cleaned default_region =
      first_parsed (build_parse_candidates cleaned default_region)

  abbrev outcome :
      Option String
      → Option String
      → Option String
      → PhoneStatus
      → PhoneReason
      → PhoneNormalizationResult
  outcome original cleaned normalized status reason = record {
    original = original;
    cleaned = cleaned;
    normalized = normalized;
    status = status;
    reason = reason;
  }

  unfoldable pub analyze_parsed :
      Option String → String → Option PhoneNumber → PhoneNormalizationResult
  analyze_parsed value cleaned none = outcome value (some cleaned) none invalid unparseable
  analyze_parsed value cleaned (some parsed) =
      if not (is_possible_number parsed)
      then outcome value (some cleaned) none invalid not_possible
      else if not (is_valid_number parsed)
      then outcome value (some cleaned) none invalid not_valid
      else outcome value (some cleaned) (some (format_number parsed)) normalized_status fine

  unfoldable pub analyze_cleaned : Option String → String → Option String → PhoneNormalizationResult
  unfolding analyze_parsed
  analyze_cleaned value default_region none = outcome value none none empty empty_input
  analyze_cleaned value default_region (some cleaned) =
      if has_alpha cleaned
      then outcome value (some cleaned) none invalid contains_letters
      else if startswith cleaned "+" && str_eq (digits_of cleaned) "4700000000"
      then outcome value (some cleaned) (some norwegian_phone_fallback) normalized_status fallback
      else analyze_parsed value cleaned (parse_phone_number cleaned default_region)

  unfoldable pub analyze_phone_number : Option String → String → PhoneNormalizationResult
  unfolding analyze_cleaned
  analyze_phone_number value default_region =
      analyze_cleaned value default_region (clean_phone_input value)

  abbrev is_empty_status : PhoneStatus → Bool
  is_empty_status empty = true
  is_empty_status _ = false

  -- `a or b` of two optional texts
  abbrev or_text : Option String → Option String → Option String
  or_text none b = b
  or_text (some a) b = if is_nonempty a then some a else b

  unfoldable pub normalize_phone_number : Option String → String → Option String
  normalize_phone_number value default_region =
      let result = analyze_phone_number value default_region in
      if is_empty_status result.status
      then none
      else if is_obviously_false_phone_number value
      then none
      else or_text result.normalized result.cleaned

  unfoldable pub normalize_required_phone_number : Option String → String → Checked
  normalize_required_phone_number value default_region =
      let result = analyze_phone_number value default_region in
      required result.cleaned result.normalized

  unfoldable pub require_e164_phone_number : Option String → String → Checked
  require_e164_phone_number value default_region =
      let result = analyze_phone_number value default_region in
      required_e164 result.cleaned result.normalized
