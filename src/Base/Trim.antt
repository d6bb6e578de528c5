-- ===== src/Base/Trim.antt =====
-- `strings.TrimSpace`, and what it does to a text that is already trimmed.
use Prim.Native.Char.{Char, code}
use Prim.Native.String.{String}
use mathlib.Core.Path.{◌≡◌, refl, ap, ◌∙◌}
use mathlib.Core.Logic.{◌⊎◌, inl, inr}
use mathlib.Core.Bool.{Bool, false, ◌&&◌, ◌||◌}
use hummtube.Base.Text.{map_chars}
use hummtube.Base.Tests.{leb, ◌==◌, if◌then◌else◌, Bool-cases}

-- `unicode.IsSpace`: the characters with the property White_Space.
unfoldable pub is_space : Char → Bool
is_space c =
    (leb 9 (code c) && leb (code c) 13)
    || code c == 0x20
    || code c == 0x85
    || code c == 0xa0
    || code c == 0x1680
    || (leb 0x2000 (code c) && leb (code c) 0x200a)
    || code c == 0x2028
    || code c == 0x2029
    || code c == 0x202f
    || code c == 0x205f
    || code c == 0x3000

trim_left : String → String
trim_left String.[] = String.[]
trim_left (String.◌∷◌ c s) = let rest = trim_left s in if is_space c then rest else String.◌∷◌ c s

-- Put `c` in front, unless nothing but spaces is left.
cons_unless_blank : Char → String → String
cons_unless_blank c String.[] = if is_space c then String.[] else String.◌∷◌ c String.[]
cons_unless_blank c (String.◌∷◌ d s) = String.◌∷◌ c (String.◌∷◌ d s)

trim_right : String → String
trim_right String.[] = String.[]
trim_right (String.◌∷◌ c s) = cons_unless_blank c (trim_right s)

-- `strings.TrimSpace`
unfoldable pub trim_space : String → String
unfolding trim_left trim_right cons_unless_blank is_space
trim_space s = trim_right (trim_left s)

trim_left_idem : (s : String) → trim_left (trim_left s) ≡ trim_left s
unfolding trim_left
trim_left_idem String.[] = refl
trim_left_idem (String.◌∷◌ c s) = elim (Bool-cases (is_space c)) [
  | inl sp ↦ rw sp (trim_left_idem s)
  | inr ns ↦ rw (ns, trim_left) (rw ns)
]

-- What trimming on the left leaves is empty or begins with no space.
trim_left-cases :
    (s : String)
    → (trim_left s ≡ String.[])
      ⊎ ((c : Char) × (t : String) × (trim_left s ≡ String.◌∷◌ c t) × (is_space c ≡ false))
unfolding trim_left
trim_left-cases String.[] = inl refl
trim_left-cases (String.◌∷◌ c s) = elim (Bool-cases (is_space c)) [
  | inl sp ↦ rw sp (trim_left-cases s)
  | inr ns ↦ inr (c, s, rw ns, ns)
]

cons_unless_blank-trim_right :
    (c : Char) (t : String)
    → trim_right t ≡ t
    → trim_right (cons_unless_blank c t) ≡ cons_unless_blank c t
unfolding trim_right cons_unless_blank
cons_unless_blank-trim_right c String.[] h = elim (Bool-cases (is_space c)) [
  | inl sp ↦ rw sp
  | inr ns ↦ rw (ns, trim_right) (rw ns)
]
cons_unless_blank-trim_right c (String.◌∷◌ d s) h = rw h

trim_right_idem : (s : String) → trim_right (trim_right s) ≡ trim_right s
unfolding trim_right
trim_right_idem String.[] = refl
trim_right_idem (String.◌∷◌ c s) = cons_unless_blank-trim_right c (trim_right s) (trim_right_idem s)

cons_unless_blank_kept :
    (c : Char) (t : String) → is_space c ≡ false → cons_unless_blank c t ≡ String.◌∷◌ c t
unfolding cons_unless_blank
cons_unless_blank_kept c String.[] h = rw h
cons_unless_blank_kept c (String.◌∷◌ d s) h = refl

trim_left-trim_right :
    (s : String) → trim_left (trim_right (trim_left s)) ≡ trim_right (trim_left s)
unfolding trim_right trim_left
trim_left-trim_right s = elim (trim_left-cases s) [
  | inl e ↦ rw e
  | inr (c, t, e, ns) ↦ rw (e, cons_unless_blank_kept c (trim_right t) ns) (rw ns)
]

-- A trimmed text is trimmed.
pub trim_space_idem : (s : String) → trim_space (trim_space s) ≡ trim_space s
unfolding trim_space
trim_space_idem s = ap trim_right (trim_left-trim_right s) ∙ trim_right_idem (trim_left s)

-- A replacement of characters that keeps spaces and only those spaces commutes with trimming.
module _ (f : Char → Char) (h : (c : Char) → is_space (f c) ≡ is_space c) where
  trim_left-map_chars : (s : String) → trim_left (map_chars f s) ≡ map_chars f (trim_left s)
  unfolding trim_left map_chars
  trim_left-map_chars String.[] = refl
  trim_left-map_chars (String.◌∷◌ c s) = elim (Bool-cases (is_space c)) [
    | inl sp ↦ rw (h c, sp) (trim_left-map_chars s)
    | inr ns ↦ rw (h c, ns) refl
  ]

  cons_unless_blank-map_chars :
      (c : Char) (s : String)
      → cons_unless_blank (f c) (map_chars f s) ≡ map_chars f (cons_unless_blank c s)
  unfolding cons_unless_blank map_chars
  cons_unless_blank-map_chars c String.[] = elim (Bool-cases (is_space c)) [
    | inl sp ↦ rw (h c, sp)
    | inr ns ↦ rw (h c, ns)
  ]
  cons_unless_blank-map_chars c (String.◌∷◌ d s) = refl

  trim_right-map_chars : (s : String) → trim_right (map_chars f s) ≡ map_chars f (trim_right s)
  unfolding trim_right map_chars
  trim_right-map_chars String.[] = refl
  trim_right-map_chars (String.◌∷◌ c s) =
      rw (trim_right-map_chars s) (cons_unless_blank-map_chars c (trim_right s))

  pub trim_space-map_chars : (s : String) → trim_space (map_chars f s) ≡ map_chars f (trim_space s)
  unfolding trim_space
  trim_space-map_chars s = rw (trim_left-map_chars s) (trim_right-map_chars (trim_left s))

pub map_chars_idem :
    (f : Char → Char)
    → ((c : Char) → f (f c) ≡ f c)
    → (s : String) → map_chars f (map_chars f s) ≡ map_chars f s
unfolding map_chars
map_chars_idem f h String.[] = refl
map_chars_idem f h (String.◌∷◌ c s) = rw (h c, map_chars_idem f h s)
