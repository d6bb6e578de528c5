-- ===== src/Base/ByteText.antt =====
-- The bytes of texts, where the program walks them: what packages `strings` and `bytes` do.
use Prim.Native.Nat.{ℕ, zero, suc, ◌+◌, ◌-◌, ◌≤◌, ◌/◌, ◌%◌}
use Prim.Native.Char.{code}
use Prim.Native.String.{String}
use mathlib.Core.Path.{◌≡◌, refl}
use mathlib.Core.Bool.{Bool, true, false, ◌&&◌}
use mathlib.Core.List.{List, [], ◌∷◌, ◌++◌, map, reverse}
use mathlib.Core.Option.{Option, none, some}
use native.Mathlib.Omega.{arith}
use hummtube.Base.Tests.{ltb, ◌==◌, if◌then◌else◌}
use hummtube.Base.Lists.{length}

abbrev pub Bytes : Type 0
Bytes = List ℕ

-- UTF-8
unfoldable pub encoded : ℕ → Bytes
encoded n =
    if ltb n 0x80
    then n ∷ []
    else if ltb n 0x800
    then (0xc0 + n / 64) ∷ (0x80 + n % 64) ∷ []
    else if ltb n 0x10000
    then (0xe0 + n / 4096) ∷ (0x80 + n / 64 % 64) ∷ (0x80 + n % 64) ∷ []
    else (0xf0 + n / 262144) ∷ (0x80 + n / 4096 % 64) ∷ (0x80 + n / 64 % 64) ∷ (0x80 + n % 64) ∷ []

unfoldable pub utf8 : String → Bytes
unfolding encoded
utf8 String.[] = []
utf8 (String.◌∷◌ c s) = encoded (code c) ++ utf8 s

-- `HasPrefix`
unfoldable pub starts_with : Bytes → Bytes → Bool
starts_with s [] = true
starts_with [] (b ∷ t) = false
starts_with (a ∷ s) (b ∷ t) = a == b && starts_with s t

-- The slices before and from a position
unfoldable pub take {ℓ} : {A : Type ℓ} → ℕ → List A → List A
take zero s = []
take (suc n) [] = []
take (suc n) (a ∷ s) = a ∷ take n s

unfoldable pub drop {ℓ} : {A : Type ℓ} → ℕ → List A → List A
drop zero s = s
drop (suc n) [] = []
drop (suc n) (a ∷ s) = drop n s

pub length-drop-le {ℓ} : {A : Type ℓ} → (n : ℕ) (s : List A) → length (drop n s) ≤ length s
unfolding drop
length-drop-le zero s = omega arith
length-drop-le (suc n) [] = omega arith
length-drop-le (suc n) (a ∷ s) = omega (arith, length-drop-le n s)

abbrev next_position : Option ℕ → Option ℕ
next_position none = none
next_position (some k) = some (suc k)

-- `Index`
unfoldable pub index_of : Bytes → Bytes → Option ℕ
unfolding starts_with
index_of [] t = if starts_with [] t then some 0 else none
index_of (a ∷ s) t =
    let rest = index_of s t in if starts_with (a ∷ s) t then some 0 else next_position rest

-- The blanks of `unicode.IsSpace`
abbrev pub blanks : List Bytes
blanks =
    (9 ∷ [])
    ∷ (10 ∷ [])
    ∷ (11 ∷ [])
    ∷ (12 ∷ [])
    ∷ (13 ∷ [])
    ∷ (32 ∷ [])
    ∷ (0xc2 ∷ 0x85 ∷ [])
    ∷ (0xc2 ∷ 0xa0 ∷ [])
    ∷ (0xe1 ∷ 0x9a ∷ 0x80 ∷ [])
    ∷ (0xe2 ∷ 0x80 ∷ 0x80 ∷ [])
    ∷ (0xe2 ∷ 0x80 ∷ 0x81 ∷ [])
    ∷ (0xe2 ∷ 0x80 ∷ 0x82 ∷ [])
    ∷ (0xe2 ∷ 0x80 ∷ 0x83 ∷ [])
    ∷ (0xe2 ∷ 0x80 ∷ 0x84 ∷ [])
    ∷ (0xe2 ∷ 0x80 ∷ 0x85 ∷ [])
    ∷ (0xe2 ∷ 0x80 ∷ 0x86 ∷ [])
    ∷ (0xe2 ∷ 0x80 ∷ 0x87 ∷ [])
    ∷ (0xe2 ∷ 0x80 ∷ 0x88 ∷ [])
    ∷ (0xe2 ∷ 0x80 ∷ 0x89 ∷ [])
    ∷ (0xe2 ∷ 0x80 ∷ 0x8a ∷ [])
    ∷ (0xe2 ∷ 0x80 ∷ 0xa8 ∷ [])
    ∷ (0xe2 ∷ 0x80 ∷ 0xa9 ∷ [])
    ∷ (0xe2 ∷ 0x80 ∷ 0xaf ∷ [])
    ∷ (0xe2 ∷ 0x81 ∷ 0x9f ∷ [])
    ∷ (0xe3 ∷ 0x80 ∷ 0x80 ∷ [])
    ∷ []

-- How many bytes of a text are a blank that it begins with
unfoldable blank_length : List Bytes → Bytes → ℕ
unfolding starts_with
blank_length [] s = 0
blank_length (blank ∷ more) s =
    let rest = blank_length more s in if starts_with s blank then length blank else rest

-- A text without the blanks that it begins with; of a blank, `n` bytes are still to be left out.
unfoldable without_blanks : List Bytes → ℕ → Bytes → Bytes
unfolding blank_length
without_blanks table n [] = []
without_blanks table (suc n) (a ∷ s) = without_blanks table n s
without_blanks table zero (a ∷ s) =
    let width = blank_length table (a ∷ s) in
    let rest = without_blanks table (width - 1) s in if width == 0 then a ∷ s else rest

-- `TrimSpace`
unfoldable pub trim_bytes : Bytes → Bytes
unfolding without_blanks
trim_bytes s = reverse (without_blanks (map reverse blanks) 0 (reverse (without_blanks blanks 0 s)))

trim_test : trim_bytes (utf8 " \u{2003}go on \t") ≡ utf8 "go on"
unfolding trim_bytes utf8
trim_test = refl

index_test : index_of (utf8 "a=1,URI=2") (utf8 "URI=") ≡ some 4
unfolding index_of utf8
index_test = refl
