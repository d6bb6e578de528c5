-- ===== src/Playback/Ytdlp/Args/Cookies.antt =====
-- What `NormalizeBrowserCookieSource` lets through.
use hummtube.Base.{◌≡◌, Bool, true, String, ◌⊎◌, inl, inr, is_empty, trim_space, Bool-cases, arith}
use hummtube.Domain.Vocabulary.{CaseTable, to_lower}
use Prim.Native.String.{◌++◌ as append}
use hummtube.Playback.Ytdlp.Args.{
  allowed_browsers, allowed_keyrings, is_in, cut_plus, checked_source,
  normalize_browser_cookie_source,
}

-- A source that may be passed to yt-dlp: none, a known browser, or one with a known keyring.
abbrev pub IsCookieSource : String → Type 0
IsCookieSource s =
    (s ≡ "")
    ⊎ ((browser : String) × (is_in allowed_browsers browser ≡ true)
        × ((s ≡ browser)
            ⊎ ((keyring : String) × (is_in allowed_keyrings keyring ≡ true)
                × (s ≡ append browser (append "+" keyring)))))

checked_source-IsCookieSource :
    (browser keyring out : String) (has_keyring : Bool)
    → checked_source (browser, keyring, has_keyring) ≡ inr out
    → IsCookieSource out
unfolding checked_source
checked_source-IsCookieSource browser keyring out has_keyring h =
    elim (Bool-cases (is_in allowed_browsers browser)) [
      | inr unknown ↦ absurd (ground arith)
      | inl known ↦ elim (Bool-cases has_keyring) [
        | inr none_given ↦ inr (browser, known, inl (ground arith))
        | inl given ↦ elim (Bool-cases (is_in allowed_keyrings keyring)) [
          | inr strange ↦ absurd (ground arith)
          | inl usual ↦ inr (browser, known, inr (keyring, usual, ground arith))
        ]
      ]
    ]

-- A text that is accepted is empty, a known browser, or a known browser and a known keyring with a
-- `+` between them.
pub normalize_browser_cookie_source-IsCookieSource :
    (table : CaseTable) (source out : String)
    → normalize_browser_cookie_source table source ≡ inr out
    → IsCookieSource out
unfolding normalize_browser_cookie_source
normalize_browser_cookie_source-IsCookieSource table source out h =
    let name = to_lower table (trim_space source) in
    let parts = cut_plus name in
    elim (Bool-cases (is_empty name)) [
      | inl y ↦ inl (ground arith)
      | inr n ↦ checked_source-IsCookieSource parts.0 parts.1 out parts.2 (rw n at h)
    ]
