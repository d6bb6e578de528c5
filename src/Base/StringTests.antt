-- ===== src/Base/StringTests.antt =====
-- What the Boolean tests on texts say.
use Prim.Native.String.{String}
use mathlib.Core.Path.{◌≡◌, refl}
use mathlib.Core.Logic.{◌⊎◌, inl, inr}
use mathlib.Core.Bool.{true, false}
use text.Mathlib.TextEquality.{eq_iff}
use text.Mathlib.TextPositions.{eq_refl}
use hummtube.Base.Tests.{if◌then◌else◌, Bool-cases}
use hummtube.Base.Text.{str_eq, is_empty}

pub str_eq→eq : (s t : String) → str_eq s t ≡ true → s ≡ t
str_eq→eq s t h = (eq_iff s t).0 h

pub str_eq_refl : (s : String) → str_eq s s ≡ true
str_eq_refl s = eq_refl s

pub is_empty→eq : (s : String) → is_empty s ≡ true → s ≡ ""
is_empty→eq String.[] h = refl
is_empty→eq (String.◌∷◌ c s) h = cc

-- To split on a comparison of texts and keep what it says.
pub str_eq-cases : (s t : String) → (s ≡ t) ⊎ (str_eq s t ≡ false)
str_eq-cases s t = elim (Bool-cases (str_eq s t)) [ inl e ↦ inl (str_eq→eq s t e) | inr n ↦ inr n ]

pub is_empty-cases : (s : String) → (s ≡ "") ⊎ (is_empty s ≡ false)
is_empty-cases String.[] = inl refl
is_empty-cases (String.◌∷◌ c s) = inr refl

-- A text with a default for the empty one: equal to the default only for two values.
pub default-cases :
    (s d : String) → str_eq (if is_empty s then d else s) d ≡ true → (s ≡ "") ⊎ (s ≡ d)
default-cases s d h = elim (is_empty-cases s) [
  | inl e ↦ inl e
  | inr n ↦ inr (str_eq→eq s d (rw n at h))
]
