-- ===== src/Iptv/Extinf/Splitting.antt =====
-- Where a line is split into metadata and title.
use hummtube.Base.{
  Char, sym, ◌∙◌, ◌≡◌, refl, ap, Bool, true, not, ◌&&◌, String, inl, inr, Bool-cases, arith,
  if◌then◌else◌,
}
use text.Mathlib.TextEquality.{Char-path}
use Prim.Native.String.{◌++◌ as append}
use Prim.Native.String.append.{nil, cons}
use hummtube.Iptv.Extinf.{
  Quoting, unquoted, scan_char, is_separator, Extinf, split_from, split_extinf,
}

-- The comma as a character.
abbrev pub comma : Char
comma = ","

-- The text that was split.
abbrev pub rejoined : Extinf → String
rejoined x = if x.has_title then append x.metadata (String.◌∷◌ comma x.title) else x.metadata

-- Whether no separator stands in the text, and the quoting after it.
abbrev pub has_no_separator : Quoting → String → Bool
has_no_separator q String.[] = true
has_no_separator q (String.◌∷◌ c s) = not (is_separator q c) && has_no_separator (scan_char q c) s

abbrev pub quoting_after : Quoting → String → Quoting
quoting_after q String.[] = q
quoting_after q (String.◌∷◌ c s) = quoting_after (scan_char q c) s

is_separator→comma : (q : Quoting) (c : Char) → is_separator q c ≡ true → c ≡ comma
is_separator→comma q c h = Char-path c comma (ground arith)

split_from-first :
    (q : Quoting) (metadata title : String)
    → has_no_separator q metadata ≡ true
    → is_separator (quoting_after q metadata) comma ≡ true
    → split_from q (append metadata (String.◌∷◌ comma title))
      ≡ record { metadata = metadata; title = title; has_title = true }
unfolding split_from
split_from-first q String.[] title h e = rw (nil (String.◌∷◌ comma title)) (rw e refl)
split_from-first q (String.◌∷◌ c s) title h e = elim (Bool-cases (is_separator q c)) [
  | inl y ↦ ground arith
  | inr n ↦
      rw (cons c s (String.◌∷◌ comma title))
        (rw (n, split_from-first (scan_char q c) s title (rw n at h) e) refl)
]

joined_cons : Char → Extinf → Extinf
joined_cons c x = record x { metadata = String.◌∷◌ c x.metadata }

rejoined-joined_cons :
    (c : Char) (x : Extinf) → rejoined (joined_cons c x) ≡ String.◌∷◌ c (rejoined x)
unfolding joined_cons
rejoined-joined_cons c x = elim (Bool-cases x.has_title) [
  | inl y ↦ rw y (cons c x.metadata _)
  | inr n ↦ rw n refl
]

split_from-rejoined : (q : Quoting) (value : String) → rejoined (split_from q value) ≡ value
unfolding split_from joined_cons
split_from-rejoined q String.[] = refl
split_from-rejoined q (String.◌∷◌ c s) = elim (Bool-cases (is_separator q c)) [
  | inl y ↦
      rw y (nil (String.◌∷◌ comma s) ∙ ap (λ d. String.◌∷◌ d s) (sym (is_separator→comma q c y)))
  | inr n ↦ rw n (
      rejoined-joined_cons c (split_from (scan_char q c) s)
      ∙ ap (String.◌∷◌ c) (split_from-rejoined (scan_char q c) s))
]

-- Metadata and title are what was split: put together again, with the comma where there is a
-- title, they are the text.
pub split_extinf-rejoined : (value : String) → rejoined (split_extinf value) ≡ value
unfolding split_extinf
split_extinf-rejoined value = split_from-rejoined unquoted value

-- The text is split at its first comma outside quotes: where the metadata has none and its quotes
-- are closed before the comma, whatever quotes and commas follow in the title.
pub split_extinf-first :
    (metadata title : String)
    → has_no_separator unquoted metadata ≡ true
    → is_separator (quoting_after unquoted metadata) comma ≡ true
    → split_extinf (append metadata (String.◌∷◌ comma title))
      ≡ record { metadata = metadata; title = title; has_title = true }
unfolding split_extinf
split_extinf-first metadata title h e = split_from-first unquoted metadata title h e
