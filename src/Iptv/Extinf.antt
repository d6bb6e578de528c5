-- ===== src/Iptv/Extinf.antt =====
-- internal/iptv/m3u.go: the line `#EXTINF:`, its attributes and its title. The delimiters are ASCII,
-- so the loops over bytes are loops over characters here. A loop over an index is a function on the
-- text that is left.
pub mod Splitting
pub mod Rendering
pub mod Turns
use hummtube.Base.{
  ℕ, zero, suc, Bool, true, false, not, ◌&&◌, ◌||◌, Char, code, leb, ◌==◌, String, List, [], ◌∷◌,
  ◌⊎◌, inl, inr, is_empty, str_eq, rune_count, trim_space, if◌then◌else◌,
}
use Prim.Native.String.{slice, len}
use hummtube.Domain.Vocabulary.{CaseTable, to_lower}
use hummtube.Iptv.Model.{M3uEntry}

-- Where the loop of `splitEXTINF` stands: the open quote (0 where there is none), and whether the
-- next character is escaped.
pub record Quoting : Type 0 where
  pub quote : ℕ
  pub escaped : Bool

abbrev pub unquoted : Quoting
unquoted = record { quote = 0; escaped = false }

abbrev pub is_quote : Char → Bool
is_quote c = code c == 0x27 || code c == 0x22

-- One turn of the loop, where it does not return.
unfoldable pub scan_char : Quoting → Char → Quoting
scan_char q c =
    if q.escaped
    then record q { escaped = false }
    else if code c == 0x5c && not (q.quote == 0)
    then record q { escaped = true }
    else if is_quote c
    then (if q.quote == 0
        then record q { quote = code c }
        else if q.quote == code c
        then record q { quote = 0 }
        else q)
    else q

-- The loop returns at this character: a comma outside quotes.
abbrev pub is_separator : Quoting → Char → Bool
is_separator q c = not q.escaped && code c == 0x2c && q.quote == 0

pub record Extinf : Type 0 where
  pub metadata : String
  pub title : String
  pub has_title : Bool

unfoldable pub split_from : Quoting → String → Extinf
unfolding scan_char
split_from q String.[] = record { metadata = String.[]; title = ""; has_title = false }
split_from q (String.◌∷◌ c s) =
    let rest = split_from (scan_char q c) s in
    if is_separator q c
    then record { metadata = String.[]; title = s; has_title = true }
    else record rest { metadata = String.◌∷◌ c rest.metadata }

-- `splitEXTINF`
unfoldable pub split_extinf : String → Extinf
unfolding split_from
split_extinf value = split_from unquoted value

-- `isAttributeKeyCharacter`
unfoldable pub is_attribute_key_character : Char → Bool
is_attribute_key_character c =
    (leb 0x61 (code c) && leb (code c) 0x7a)
    || (leb 0x41 (code c) && leb (code c) 0x5a)
    || (leb 0x30 (code c) && leb (code c) 0x39)
    || code c == 0x2d
    || code c == 0x5f

abbrev pub is_blank : Char → Bool
is_blank c = code c == 0x20 || code c == 9

abbrev pub is_blank_or_comma : Char → Bool
is_blank_or_comma c = is_blank c || code c == 0x2c

abbrev pub is_not_blank : Char → Bool
is_not_blank c = not (is_blank c)

-- The characters up to the first that fails the test, and the text from there.
unfoldable pub span : (Char → Bool) → String → String × String
span p String.[] = (String.[], String.[])
span p (String.◌∷◌ c s) =
    let rest = span p s in
    if p c then (String.◌∷◌ c rest.0, rest.1) else (String.[], String.◌∷◌ c s)

-- The loop of `parseAttributeValue` inside the quote: a character after a backslash is taken as it
-- is, and a backslash that ends the text as itself.
unfoldable pub quoted_value : Char → String → String × String
quoted_value quote String.[] = (String.[], String.[])
quoted_value quote (String.◌∷◌ c String.[]) =
    if code c == code quote then (String.[], String.[]) else (String.◌∷◌ c String.[], String.[])
quoted_value quote (String.◌∷◌ c (String.◌∷◌ d s)) =
    let escaped = quoted_value quote s in
    let plain = quoted_value quote (String.◌∷◌ d s) in
    if code c == 0x5c
    then (String.◌∷◌ d escaped.0, escaped.1)
    else if code c == code quote
    then (String.[], String.◌∷◌ d s)
    else (String.◌∷◌ c plain.0, plain.1)

-- `parseAttributeValue`: the value, and the text after it.
unfoldable pub parse_attribute_value : String → String × String
unfolding span quoted_value
parse_attribute_value String.[] = (String.[], String.[])
parse_attribute_value (String.◌∷◌ c s) =
    if is_quote c then quoted_value c s else span is_not_blank (String.◌∷◌ c s)

abbrev pub Attributes : Type 0
Attributes = List (String × String)

-- `attributes[key]`, "" where the key is missing. The last value that was stored stands first.
unfoldable pub attribute : String → Attributes → String
attribute key [] = ""
attribute key ((k, v) ∷ rest) = if str_eq k key then v else attribute key rest

-- The part of a turn after the key and its blanks: at `=` (and blanks after it) the value is
-- stored, and else the key is dropped. The result is what is stored and the text that is left.
unfoldable pub assigned : CaseTable → String → String → Attributes → Attributes × String
unfolding span parse_attribute_value
assigned table key String.[] attributes = (attributes, String.[])
assigned table key (String.◌∷◌ c s) attributes =
    let value = parse_attribute_value (span is_blank s).1 in
    if code c == 0x3d
    then ((to_lower table key, value.0) ∷ attributes, value.1)
    else (attributes, String.◌∷◌ c s)

unfoldable pub after_key : CaseTable → String → String → Attributes → Attributes × String
unfolding span assigned
after_key table key rest attributes = assigned table key (span is_blank rest).1 attributes

-- One turn of the loop of `parseAttributes`.
unfoldable pub parse_attribute : CaseTable → String → Attributes → Attributes × String
unfolding span after_key
parse_attribute table value attributes =
    let key = span is_attribute_key_character (span is_blank_or_comma value).1 in
    if is_empty key.0
    then (attributes, (span is_not_blank key.1).1)
    else after_key table key.0 key.1 attributes

-- `parseAttributes`; every turn takes a character, so the length of the text is fuel enough.
unfoldable pub attributes_from : CaseTable → ℕ → String → Attributes → Attributes
unfolding parse_attribute
attributes_from table fuel String.[] attributes = attributes
attributes_from table zero (String.◌∷◌ c s) attributes = attributes
attributes_from table (suc fuel) (String.◌∷◌ c s) attributes =
    let turn = parse_attribute table (String.◌∷◌ c s) attributes in
    attributes_from table fuel turn.1 turn.0

unfoldable pub parse_attributes : CaseTable → String → Attributes
unfolding attributes_from rune_count
parse_attributes table value = attributes_from table (rune_count value) value []

-- The error of `parseEXTINF` is its text.
unfoldable pub parse_extinf : CaseTable → String → String ⊎ M3uEntry
unfolding trim_space split_extinf parse_attributes attribute
parse_extinf table line =
    let value = split_extinf (trim_space (slice line 8 (len line))) in
    let attributes = parse_attributes table value.metadata in
    let named = attribute "tvg-name" attributes in
    let title = trim_space (if is_empty (trim_space value.title) then named else value.title) in
    if is_empty title
    then inl "EXTINF sem nome de entrada"
    else if not value.has_title && is_empty named
    then inl "EXTINF sem separador e sem tvg-name"
    else inr (record {
      id = trim_space (attribute "tvg-id" attributes);
      name = title;
      group = trim_space (attribute "group-title" attributes);
      logo_url = trim_space (attribute "tvg-logo" attributes);
      channel = trim_space (attribute "tvg-chno" attributes);
      language = trim_space (attribute "tvg-language" attributes);
      country = trim_space (attribute "tvg-country" attributes);
      content_type = trim_space (attribute "tvg-type" attributes);
    })
