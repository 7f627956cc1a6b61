-- ===== src/Prelude/Keys.antt =====
-- Keys of dictionaries: a Boolean equality that decides equality.
use Prim.Native.Nat.{ℕ}
use Prim.Native.String.{String}
use mathlib.Core.Path.{◌≡◌}
use mathlib.Core.Logic.{◌↔◌}
use mathlib.Core.Bool.{Bool, true}
use text.Mathlib.Text.{◌==◌ as text_eq}
use text.Mathlib.TextEquality.{eq_iff}
use kvarteret_personal.Prelude.Tests.{◌==◌, ==_iff}

pub record Key {ℓ} (K : Type ℓ) : Type ℓ where
  pub eq : K → K → Bool
  pub law : (a b : K) → (eq a b ≡ true) ↔ (a ≡ b)

abbrev pub str_eq : String → String → Bool
str_eq = text_eq

instance abbrev pub ℕ_key : Key ℕ
ℕ_key = record { eq = ◌==◌; law = ==_iff }

instance abbrev pub String_key : Key String
String_key = record { eq = text_eq; law = eq_iff }
