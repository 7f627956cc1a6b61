-- ===== src/Groups/Slugs.antt =====
-- app/shared/slugs.py. The encoding to ASCII drops every character from U+0080 on. The normalization
-- NFKD of the library is the argument `nfkd`.
pub mod Shape
use Prim.Native.Char.{Char, code}
use Prim.Native.String.{char_at}
use kvarteret_personal.Prelude.{
  ℕ, ◌≡◌, refl, Bool, true, false, not, ◌&&◌, ◌||◌, String, leb, ltb, ◌==◌, if◌then◌else◌,
}
use kvarteret_personal.Text.{lower}

-- `_NORWEGIAN_TRANSLITERATION`, of one character in front of a text
abbrev pub transliterate_char : Char → String → String
transliterate_char c s =
    if code c == 230
    then String.◌∷◌ "a" (String.◌∷◌ "e" s)
    else if code c == 248
    then String.◌∷◌ "o" s
    else if code c == 229
    then String.◌∷◌ "a" s
    else if code c == 198
    then String.◌∷◌ "A" (String.◌∷◌ "e" s)
    else if code c == 216
    then String.◌∷◌ "O" s
    else if code c == 197
    then String.◌∷◌ "A" s
    else String.◌∷◌ c s

-- `value.translate`
unfoldable pub transliterate : String → String
transliterate String.[] = String.[]
transliterate (String.◌∷◌ c s) = transliterate_char c (transliterate s)

-- `.encode("ascii", "ignore").decode("ascii")`
unfoldable pub to_ascii : String → String
to_ascii String.[] = String.[]
to_ascii (String.◌∷◌ c s) =
    let rest = to_ascii s in if ltb (code c) 128 then String.◌∷◌ c rest else rest

-- a-z and 0-9
abbrev pub is_slug_char : Char → Bool
is_slug_char c = (leb 97 (code c) && leb (code c) 122) || (leb 48 (code c) && leb (code c) 57)

-- `re.sub(r"[^a-z0-9]+", "-", …)`: a run of other characters is one dash, at its first character.
unfoldable pub dash_runs : Bool → String → String
dash_runs in_run String.[] = String.[]
dash_runs in_run (String.◌∷◌ c s) =
    let inside = dash_runs true s in
    let outside = dash_runs false s in
    if is_slug_char c
    then String.◌∷◌ c outside
    else if in_run
    then inside
    else String.◌∷◌ "-" inside

-- `.strip("-")`
unfoldable pub lstrip_dashes : String → String
lstrip_dashes String.[] = String.[]
lstrip_dashes (String.◌∷◌ c s) =
    let rest = lstrip_dashes s in if code c == 45 then rest else String.◌∷◌ c s

abbrev cons_unless_dash : Char → String → String
cons_unless_dash c String.[] = if code c == 45 then String.[] else String.◌∷◌ c String.[]
cons_unless_dash c (String.◌∷◌ d s) = String.◌∷◌ c (String.◌∷◌ d s)

unfoldable pub rstrip_dashes : String → String
rstrip_dashes String.[] = String.[]
rstrip_dashes (String.◌∷◌ c s) = cons_unless_dash c (rstrip_dashes s)

unfoldable pub slugify : (String → String) → String → String
unfolding transliterate to_ascii dash_runs lstrip_dashes rstrip_dashes
slugify nfkd value =
    lstrip_dashes (rstrip_dashes (dash_runs false (lower (to_ascii (nfkd (transliterate value))))))

slugify_test : slugify (λ s. s) "Blå Søndag & Co." ≡ "bla-sondag-co"
unfolding slugify transliterate to_ascii lower dash_runs lstrip_dashes rstrip_dashes
slugify_test = refl
