-- ===== src/Playback/Proxy/Access/Tokens.antt =====
-- The token in the path of a local URL.
use Prim.Native.String.{◌++◌ as append}
use Prim.Native.String.append.{nil, cons}
use text.Mathlib.TextLemmas.{append-nil, append_assoc, head-eq_of_cons-eq}
use hummtube.Base.{
  ◌≡◌, refl, sym, ap, ◌∙◌, true, false, ◌==◌, ◌*◌, code, Char, String, some, inl, inr, arith,
  Bool-cases, str_eq, str_eq→eq, contains, has_prefix, rune_count,
}
use hummtube.Domain.Vocabulary.{Time}
use hummtube.Playback.Proxy.Sessions.{
  Session, ProxyEnv, local_path, media_proxy_path_prefix, media_proxy_token_bytes,
}
use hummtube.Playback.Proxy.Access.{after_prefix, trim_suffix, is_hex, parse_media_token}

after_prefix-append : (t s : String) → after_prefix (append t s) t ≡ some s
unfolding after_prefix
after_prefix-append String.[] s = rw (nil s) refl
after_prefix-append (String.◌∷◌ c t) s = rw (cons c t s) (ground (arith, after_prefix-append t s))

-- A digit is no slash and no dot.
hex_digit :
    (c : Char) (s : String)
    → is_hex (String.◌∷◌ c s) ≡ true
    → ((code c == b'/') ≡ false) × ((code c == b'.') ≡ false) × (is_hex s ≡ true)
unfolding is_hex
hex_digit c s h = (ground arith, ground arith, ground arith)

contains-slash :
    (s tail : String) → is_hex s ≡ true → contains (append s tail) "/" ≡ contains tail "/"
unfolding contains has_prefix
contains-slash String.[] tail h = rw (nil tail) refl
contains-slash (String.◌∷◌ c s) tail h =
    let (slash, dot, rest) = hex_digit c s h in
    rw (cons c s tail, slash) (contains-slash s tail rest)

not_suffix :
    (c : Char) (s : String) → (code c == b'.') ≡ false → str_eq (String.◌∷◌ c s) ".m3u8" ≡ false
not_suffix c s dot = elim (Bool-cases (str_eq (String.◌∷◌ c s) ".m3u8")) [
  | inr n ↦ n
  | inl y ↦
      let same = ap code (head-eq_of_cons-eq (str_eq→eq (String.◌∷◌ c s) ".m3u8" y)) in
      absurd (ground arith)
]

trim_suffix-append :
    (s tail : String)
    → is_hex s ≡ true
    → trim_suffix (append s tail) ".m3u8" ≡ append s (trim_suffix tail ".m3u8")
unfolding trim_suffix
trim_suffix-append String.[] tail h = rw (nil tail, nil (trim_suffix tail ".m3u8")) refl
trim_suffix-append (String.◌∷◌ c s) tail h =
    let (slash, dot, rest) = hex_digit c s h in
    rw (cons c s tail, cons c s (trim_suffix tail ".m3u8"), not_suffix c (append s tail) dot)
      (ap (λ x. String.◌∷◌ c x) (trim_suffix-append s tail rest))

-- The text is as `rand.Read` and `hex.EncodeToString` make it.
abbrev pub IsToken : String → Type 0
IsToken token = ((rune_count token == media_proxy_token_bytes * 2) ≡ true) × (is_hex token ≡ true)

token_of :
    (token suffix : String)
    → IsToken token
    → contains suffix "/" ≡ false
    → trim_suffix suffix ".m3u8" ≡ ""
    → parse_media_token (append media_proxy_path_prefix (append token suffix)) ≡ some token
unfolding parse_media_token
token_of token suffix (size, digits) slash gone =
    rw
      (
        after_prefix-append media_proxy_path_prefix (append token suffix),
        contains-slash token suffix digits,
        slash,
        trim_suffix-append token suffix digits,
        gone,
        append-nil token,
        size,
        digits,
      )
      refl

-- A request for a local URL names the token of its session.
pub parse_media_token-local_path :
    (env : ProxyEnv) (now : Time) (token : String) (s : Session)
    → IsToken token
    → parse_media_token (local_path env now token s) ≡ some token
unfolding local_path trim_suffix contains
parse_media_token-local_path env now token s h = elim (Bool-cases s.is_hls) [
  | inl y ↦
      rw (y, append_assoc media_proxy_path_prefix token ".m3u8")
        (token_of token ".m3u8" h refl refl)
  | inr n ↦ rw n (
      ap (λ x. parse_media_token (append media_proxy_path_prefix x)) (sym (append-nil token))
      ∙ token_of token "" h refl refl)
]
