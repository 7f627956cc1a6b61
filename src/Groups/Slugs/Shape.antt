-- ===== src/Groups/Slugs/Shape.antt =====
-- What the slugs of app/shared/slugs.py look like.
use Prim.Native.Char.{Char, code}
use kvarteret_personal.Prelude.{
  ◌≡◌, refl, inl, inr, Bool, true, false, not, ◌&&◌, ◌||◌, String, arith, ◌==◌, if◌then◌else◌,
  Bool-cases,
}
use kvarteret_personal.Text.{lower, is_nonempty}
use kvarteret_personal.Groups.Slugs.{
  is_slug_char, transliterate, to_ascii, dash_runs, lstrip_dashes, cons_unless_dash, rstrip_dashes,
  slugify,
}

-- Letters, digits and single dashes, of which none comes at first if one stands before.
abbrev runs : Bool → String → Bool
runs dash String.[] = true
runs dash (String.◌∷◌ c s) =
    let inside = runs true s in
    let outside = runs false s in
    if is_slug_char c then outside else not dash && code c == 45 && inside

-- The same, and the last is no dash.
abbrev pub slug_after : Bool → String → Bool
slug_after dash String.[] = not dash
slug_after dash (String.◌∷◌ c s) =
    let inside = slug_after true s in
    let outside = slug_after false s in
    if is_slug_char c then outside else not dash && code c == 45 && inside

-- Nothing, or words of letters and digits with single dashes between them.
abbrev pub is_slug : String → Bool
is_slug s = not (is_nonempty s) || slug_after true s

dash_runs-runs : (in_run : Bool) (s : String) → runs in_run (dash_runs in_run s) ≡ true
unfolding dash_runs
dash_runs-runs in_run String.[] = refl
dash_runs-runs true (String.◌∷◌ c s) = elim (Bool-cases (is_slug_char c)) [
  | inl word ↦ rw (word, word) (dash_runs-runs false s)
  | inr other ↦ rw other (dash_runs-runs true s)
]
dash_runs-runs false (String.◌∷◌ c s) = elim (Bool-cases (is_slug_char c)) [
  | inl word ↦ rw (word, word) (dash_runs-runs false s)
  | inr other ↦ rw other (dash_runs-runs true s)
]

dropped : (c : Char) → code c == 45 ≡ true → ¬ (is_nonempty (cons_unless_dash c String.[]) ≡ true)
dropped c drop = rw drop (λ h. cc)

refused :
    (word free dash inside outside : Bool)
    → word ≡ false
    → dash ≡ false
    → ¬ ((if word then outside else free && dash && inside) ≡ true)
refused word free dash inside outside w d = λ h. ground (arith, w, d, h)

-- A last character that is no dash.
last-slug_after :
    (dash : Bool) (c : Char) (inside outside : Bool)
    → (if is_slug_char c then outside else not dash && code c == 45 && inside) ≡ true
    → is_nonempty (cons_unless_dash c String.[]) ≡ true
    → slug_after dash (cons_unless_dash c String.[]) ≡ true
last-slug_after dash c inside outside h there = elim (Bool-cases (code c == 45)) [
  | inl drop ↦ absurd (dropped c drop there)
  | inr keep ↦ elim (Bool-cases (is_slug_char c)) [
    | inl word ↦ rw (keep, word) refl
    | inr other ↦
        absurd (refused (is_slug_char c) (not dash) (code c == 45) inside outside other keep h)
  ]
]

-- One character more, in front of a text without dashes at its end.
cons-slug_after :
    (dash : Bool) (c : Char) (s r : String)
    → runs dash (String.◌∷◌ c s) ≡ true
    → ((d : Bool) → runs d s ≡ true → is_nonempty r ≡ true → slug_after d r ≡ true)
    → is_nonempty (cons_unless_dash c r) ≡ true
    → slug_after dash (cons_unless_dash c r) ≡ true
cons-slug_after dash c s String.[] h ih there = last-slug_after dash c (runs true s) _ h there
cons-slug_after dash c s (String.◌∷◌ d r) h ih there = elim (Bool-cases (is_slug_char c)) [
  | inl word ↦ rw word (ih false (ground (arith, word, h)) refl)
  | inr other ↦
      let inside : runs true s ≡ true = ground (arith, other, h) in
      let dash_c : code c == 45 ≡ true = ground (arith, other, h) in
      let free : not dash ≡ true = ground (arith, other, h) in
      rw (other, free, dash_c) (ih true inside refl)
]

rstrip-slug_after :
    (dash : Bool) (s : String)
    → runs dash s ≡ true
    → is_nonempty (rstrip_dashes s) ≡ true
    → slug_after dash (rstrip_dashes s) ≡ true
unfolding rstrip_dashes
rstrip-slug_after dash String.[] h there = absurd cc
rstrip-slug_after dash (String.◌∷◌ c s) h there =
    cons-slug_after dash c s (rstrip_dashes s) h (λ d. rstrip-slug_after d s) there

lstrip_same : (s : String) → slug_after true s ≡ true → lstrip_dashes s ≡ s
unfolding lstrip_dashes
lstrip_same String.[] h = refl
lstrip_same (String.◌∷◌ c s) h = ground (arith, h)

lstrip-is_slug : (s : String) → slug_after false s ≡ true → is_slug (lstrip_dashes s) ≡ true
unfolding lstrip_dashes
lstrip-is_slug String.[] h = refl
lstrip-is_slug (String.◌∷◌ c s) h = elim (Bool-cases (code c == 45)) [
  | inl dash ↦
      let rest : slug_after true s ≡ true = ground (arith, dash, h) in
      rw (dash, lstrip_same s rest, rest) (ground arith)
  | inr other ↦ rw other (ground (arith, other, h))
]

empty_lstrip : (s : String) → is_nonempty s ≡ false → is_slug (lstrip_dashes s) ≡ true
unfolding lstrip_dashes
empty_lstrip String.[] h = refl
empty_lstrip (String.◌∷◌ c s) h = absurd cc

stripped-is_slug :
    (s : String) → runs false s ≡ true → is_slug (lstrip_dashes (rstrip_dashes s)) ≡ true
unfolding lstrip_dashes
stripped-is_slug s h = elim (Bool-cases (is_nonempty (rstrip_dashes s))) [
  | inl there ↦ lstrip-is_slug (rstrip_dashes s) (rstrip-slug_after false s h there)
  | inr gone ↦ empty_lstrip (rstrip_dashes s) gone
]

-- A slug is empty, or it is words of the letters a to z and of digits with single dashes between
-- them, whatever the text was and however the library normalizes it.
pub slugify-is_slug :
    (nfkd : String → String) (value : String) → is_slug (slugify nfkd value) ≡ true
unfolding slugify
slugify-is_slug nfkd value =
    stripped-is_slug (dash_runs false (lower (to_ascii (nfkd (transliterate value)))))
      (dash_runs-runs false (lower (to_ascii (nfkd (transliterate value)))))
