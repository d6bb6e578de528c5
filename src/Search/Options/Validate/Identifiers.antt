-- ===== src/Search/Options/Validate/Identifiers.antt =====
-- internal/search/options.go: the patterns of identifiers, as recognisers.
use hummtube.Base.{
  ℕ, suc, Char, code, leb, Bool, true, false, ◌&&◌, ◌||◌, String, rune_count, ◌==◌, if◌then◌else◌,
}

is_digit : Char → Bool
is_digit c = leb b'0' (code c) && leb (code c) b'9'

is_letter : Char → Bool
is_letter c = (leb b'A' (code c) && leb (code c) b'Z') || (leb b'a' (code c) && leb (code c) b'z')

-- `[A-Za-z0-9_-]`
is_id_char : Char → Bool
unfolding is_digit is_letter
is_id_char c = is_letter c || is_digit c || code c == b'_' || code c == b'-'

all_chars : (Char → Bool) → String → Bool
all_chars p String.[] = true
all_chars p (String.◌∷◌ c s) = p c && all_chars p s

-- `^[A-Za-z0-9_-]{1,128}$`
unfoldable pub is_channel_id : String → Bool
unfolding is_id_char all_chars
is_channel_id s = leb 1 (rune_count s) && leb (rune_count s) 128 && all_chars is_id_char s

-- `^[0-9]{1,3}$`
unfoldable pub is_category_id : String → Bool
unfolding is_digit all_chars
is_category_id s = leb 1 (rune_count s) && leb (rune_count s) 3 && all_chars is_digit s

-- `^/[mg]/[A-Za-z0-9_-]+$`
unfoldable pub is_topic_id : String → Bool
unfolding is_id_char all_chars
is_topic_id (String.◌∷◌ a (String.◌∷◌ b (String.◌∷◌ c s))) =
    code a == b'/'
    && (code b == b'm' || code b == b'g')
    && code c == b'/'
    && leb 1 (rune_count s)
    && all_chars is_id_char s
is_topic_id _ = false

-- The groups of the language pattern: `n` characters of the current group are read, and `first`
-- says whether it is the group of letters, which has 2 or 3; the others have 2 to 8.
group_done : Bool → ℕ → Bool
group_done first n = leb 2 n && leb n (if first then 3 else 8)

language_groups : Bool → ℕ → String → Bool
unfolding group_done is_digit is_letter
language_groups first n String.[] = group_done first n
language_groups first n (String.◌∷◌ c s) =
    let hyphen = code c == b'-' in
    let fits = if first then is_letter c else is_letter c || is_digit c in
    (if hyphen then group_done first n else fits)
    && language_groups (if hyphen then false else first) (if hyphen then 0 else suc n) s

-- `^[A-Za-z]{2,3}(?:-[A-Za-z0-9]{2,8})*$`
unfoldable pub is_language : String → Bool
unfolding language_groups
is_language s = language_groups true 0 s
