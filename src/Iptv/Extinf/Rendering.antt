-- ===== src/Iptv/Extinf/Rendering.antt =====
-- Attributes as a playlist writes them, and what `parseAttributes` reads back.
use hummtube.Base.{
  both_true, ℕ, zero, suc, ◌+◌, ◌≤◌, ◌≡◌, refl, ap, ◌∙◌, Bool, true, false, not, ◌&&◌, ◌||◌, Char,
  code, ◌==◌, String, [], ◌∷◌, inl, inr, Bool-cases, arith, is_empty, rune_count, if◌then◌else◌,
}
use Prim.Native.String.{◌++◌ as append}
use Prim.Native.String.append.{nil, cons}
use hummtube.Domain.Vocabulary.{CaseTable, to_lower}
use hummtube.Iptv.Extinf.{
  Attributes, is_attribute_key_character, is_blank_or_comma, span, quoted_value,
  parse_attribute_value, assigned, after_key, parse_attribute, attributes_from, parse_attributes,
}

abbrev pub quotation_mark : Char
quotation_mark = "\""

abbrev pub backslash : Char
backslash = "\\"

abbrev pub equals_sign : Char
equals_sign = "="

abbrev pub blank : Char
blank = " "

-- A value with a backslash before each backslash and each quotation mark.
unfoldable pub escape : String → String
escape String.[] = String.[]
escape (String.◌∷◌ c s) =
    if code c == 0x5c || code c == 0x22
    then String.◌∷◌ backslash (String.◌∷◌ c (escape s))
    else String.◌∷◌ c (escape s)

-- `="value"`, and the text after it.
abbrev assignment : String → String → String
assignment v rest =
    String.◌∷◌ equals_sign
      (String.◌∷◌ quotation_mark (append (escape v) (String.◌∷◌ quotation_mark rest)))

-- Attributes one after another, each with a blank before it.
unfoldable pub render : Attributes → String
unfolding escape
render [] = ""
render ((k, v) ∷ attributes) = String.◌∷◌ blank (append k (assignment v (render attributes)))

abbrev pub is_key : String → Bool
is_key String.[] = true
is_key (String.◌∷◌ c s) = is_attribute_key_character c && is_key s

abbrev pub are_keys : Attributes → Bool
are_keys [] = true
are_keys ((k, v) ∷ attributes) = (not (is_empty k) && is_key k) && are_keys attributes

-- The attributes with their keys in lower case, the last one first.
unfoldable pub stored : CaseTable → Attributes → Attributes → Attributes
stored table [] done = done
stored table ((k, v) ∷ attributes) done = stored table attributes ((to_lower table k, v) ∷ done)

quoted_value-plain :
    (c : Char) (s : String)
    → (code c == 0x5c) ≡ false
    → (code c == 0x22) ≡ false
    → quoted_value quotation_mark (String.◌∷◌ c s)
      ≡ (String.◌∷◌ c (quoted_value quotation_mark s).0, (quoted_value quotation_mark s).1)
unfolding quoted_value
quoted_value-plain c String.[] h k = rw k refl
quoted_value-plain c (String.◌∷◌ d s) h k = rw (h, k) refl

quoted_value-close :
    (s : String) → quoted_value quotation_mark (String.◌∷◌ quotation_mark s) ≡ (String.[], s)
unfolding quoted_value
quoted_value-close String.[] = refl
quoted_value-close (String.◌∷◌ d s) = refl

quoted_value-escape :
    (v rest : String)
    → quoted_value quotation_mark (append (escape v) (String.◌∷◌ quotation_mark rest)) ≡ (v, rest)
unfolding escape quoted_value
quoted_value-escape String.[] rest =
    rw (nil (String.◌∷◌ quotation_mark rest)) (quoted_value-close rest)
quoted_value-escape (String.◌∷◌ c v) rest = elim (Bool-cases (code c == 0x5c || code c == 0x22)) [
  | inl y ↦
      rw (y, cons backslash (String.◌∷◌ c (escape v)) _, cons c (escape v) _)
        (rw (quoted_value-escape v rest) refl)
  | inr n ↦
      rw (n, cons c (escape v) (String.◌∷◌ quotation_mark rest))
        (quoted_value-plain c _ (ground arith) (ground arith)
          ∙ rw (quoted_value-escape v rest) refl)
]

equals_sign-no_key : is_attribute_key_character equals_sign ≡ false
unfolding is_attribute_key_character
equals_sign-no_key = refl

span-key :
    (k rest : String)
    → is_key k ≡ true
    → span is_attribute_key_character (append k (String.◌∷◌ equals_sign rest))
      ≡ (k, String.◌∷◌ equals_sign rest)
unfolding span
span-key String.[] rest h = rw (nil (String.◌∷◌ equals_sign rest)) (rw equals_sign-no_key refl)
span-key (String.◌∷◌ c k) rest h = rw (cons c k (String.◌∷◌ equals_sign rest)) (
    rw (both_true (is_attribute_key_character c) (is_key k) h).0
      (rw (span-key k rest (both_true (is_attribute_key_character c) (is_key k) h).1) refl))

after_key-assignment :
    (table : CaseTable) (k v rest : String) (done : Attributes)
    → after_key table k (assignment v rest) done ≡ ((to_lower table k, v) ∷ done, rest)
unfolding after_key assigned span parse_attribute_value
after_key-assignment table k v rest done = rw (quoted_value-escape v rest) refl

key-no_blank : (c : Char) → is_attribute_key_character c ≡ true → is_blank_or_comma c ≡ false
unfolding is_attribute_key_character
key-no_blank c h = ground arith

-- The blank before a key is passed over.
span-before_key :
    (k rest : String)
    → is_empty k ≡ false
    → is_key k ≡ true
    → (span is_blank_or_comma (String.◌∷◌ blank (append k rest))).1 ≡ append k rest
unfolding span
span-before_key String.[] rest e h = cc
span-before_key (String.◌∷◌ c k) rest e h =
    rw (cons c k rest)
      (rw (key-no_blank c (both_true (is_attribute_key_character c) (is_key k) h).0) refl)

parse_attribute-assignment :
    (table : CaseTable) (k v rest : String) (done : Attributes)
    → is_empty k ≡ false
    → is_key k ≡ true
    → parse_attribute table (String.◌∷◌ blank (append k (assignment v rest))) done
      ≡ ((to_lower table k, v) ∷ done, rest)
unfolding parse_attribute
parse_attribute-assignment table k v rest done e h =
    rw (span-before_key k (assignment v rest) e h)
      (rw (span-key k _ h) (rw e (after_key-assignment table k v rest done)))

rune_count-append : (s t : String) → rune_count (append s t) ≡ rune_count s + rune_count t
unfolding rune_count
rune_count-append String.[] t = rw (nil t) (omega arith)
rune_count-append (String.◌∷◌ c s) t = rw (cons c s t) (omega (arith, rune_count-append s t))

rune_count-assignment :
    (k v rest : String) → rune_count rest ≤ rune_count (append k (assignment v rest))
unfolding rune_count
rune_count-assignment k v rest = omega (
  arith,
  rune_count-append k (assignment v rest),
  rune_count-append (escape v) (String.◌∷◌ quotation_mark rest),
)

attributes_from-render :
    (table : CaseTable) (attributes : Attributes) (fuel : ℕ) (done : Attributes)
    → are_keys attributes ≡ true
    → rune_count (render attributes) ≤ fuel
    → attributes_from table fuel (render attributes) done ≡ stored table attributes done
unfolding attributes_from render stored rune_count
attributes_from-render table [] fuel done h enough = refl
attributes_from-render table ((k, v) ∷ attributes) zero done h enough = ground arith
attributes_from-render table ((k, v) ∷ attributes) (suc fuel) done h enough =
    let (good, others) = both_true (not (is_empty k) && is_key k) (are_keys attributes) h in
    let (named, keyed) = both_true (not (is_empty k)) (is_key k) good in
    ap (λ t. attributes_from table fuel t.1 t.0)
      (parse_attribute-assignment table k v (render attributes) done (ground arith) keyed)
    ∙ attributes_from-render table attributes fuel ((to_lower table k, v) ∷ done) others
        (omega (arith, enough, rune_count-assignment k v (render attributes)))

-- What a playlist writes is read back: for attributes whose keys are not empty and have only the
-- characters of keys, every value comes back as it was, quotation marks, backslashes, commas and
-- blanks included, under its key in lower case, later attributes first.
pub parse_attributes-render :
    (table : CaseTable) (attributes : Attributes)
    → are_keys attributes ≡ true
    → parse_attributes table (render attributes) ≡ stored table attributes []
unfolding parse_attributes
parse_attributes-render table attributes h =
    attributes_from-render table attributes (rune_count (render attributes)) [] h (omega arith)
