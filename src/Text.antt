-- ===== src/Text.antt =====
-- The methods of Python's `str` that the modelled code calls: strip, lower, isdigit, len.
-- `lower` is exact on ASCII and leaves every other character alone.
use Prim.Native.Char.{Char, code}
use Prim.Native.String.{char_at, count}
use kvarteret_personal.Prelude.{
  ℕ, ◌-◌, ◌≡◌, refl, Bool, true, false, ◌&&◌, ◌||◌, not, String, leb, ◌==◌, if◌then◌else◌,
}

-- str.isspace of one character
abbrev pub is_space : ℕ → Bool
is_space c =
    (leb 9 c && leb c 13)
    || (leb 28 c && leb c 32)
    || c == 133
    || c == 160
    || c == 5760
    || (leb 8192 c && leb c 8202)
    || c == 8232
    || c == 8233
    || c == 8239
    || c == 8287
    || c == 12288

-- bool(s): a text is false when it is empty
abbrev pub is_nonempty : String → Bool
is_nonempty String.[] = false
is_nonempty (String.◌∷◌ _ _) = true

-- str.lstrip
unfoldable pub lstrip : String → String
lstrip String.[] = String.[]
lstrip (String.◌∷◌ c s) = let rest = lstrip s in if is_space (code c) then rest else String.◌∷◌ c s

-- str.rstrip
unfoldable pub rstrip : String → String
rstrip String.[] = String.[]
rstrip (String.◌∷◌ c s) =
    let rest = rstrip s in
    if not (is_nonempty rest) && is_space (code c) then String.[] else String.◌∷◌ c rest

unfoldable pub strip : String → String
unfolding lstrip rstrip
strip s = lstrip (rstrip s)

abbrev pub lower_char : Char → Char
lower_char c =
    if leb 65 (code c) && leb (code c) 90
    then char_at "abcdefghijklmnopqrstuvwxyz" (code c - 65)
    else c

-- str.lower
unfoldable pub lower : String → String
lower String.[] = String.[]
lower (String.◌∷◌ c s) = String.◌∷◌ (lower_char c) (lower s)

abbrev pub all_digits : String → Bool
all_digits String.[] = true
all_digits (String.◌∷◌ c s) = leb 48 (code c) && leb (code c) 57 && all_digits s

-- str.isdigit, for the ASCII digits
abbrev pub isdigit : String → Bool
isdigit String.[] = false
isdigit (String.◌∷◌ c s) = all_digits (String.◌∷◌ c s)

-- len(s)
abbrev pub len : String → ℕ
len = count

strip_test : strip "  ola@example.no \n" ≡ "ola@example.no"
unfolding strip
strip_test = refl

lower_test : lower "Ola.N@Example.NO" ≡ "ola.n@example.no"
unfolding lower
lower_test = refl
