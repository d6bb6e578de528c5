-- ===== src/Playback/Ytdlp/Args.antt =====
-- internal/playback/ytdl.go: the settings of the extractor as arguments and as a line for the log.
-- The directory of plugins that `configuredPOTPluginDir` finds, `net/url` and `net.ParseIP` are
-- parameters.
pub mod Redaction
pub mod Cookies
use Prim.Native.String.{◌++◌ as append}
use hummtube.Base.{
  ℤ, pos, pos_part, leb_ℤ, Bool, true, false, not, ◌&&◌, ◌||◌, code, ◌==◌, String, List, [], ◌∷◌,
  ◌++◌, Option, none, some, ◌⊎◌, inl, inr, any, is_empty, str_eq, contains, trim_space, itoa,
  if◌then◌else◌,
}
use hummtube.Domain.Vocabulary.{CaseTable, to_lower, equal_fold}
use hummtube.Playback.Failure.Kind.{
  JsRuntime, is_found, YtdlConfig, auto_player_client, has_fixed_client,
}

-- `JSRuntime.String`
unfoldable pub runtime_text : JsRuntime → String
unfolding is_found
runtime_text r = if is_found r then append r.name (append ":" r.path) else ""

-- `FormatSelector`
unfoldable pub format_selector : YtdlConfig → String
format_selector c =
    let height = itoa (pos_part c.max_height) in
    if leb_ℤ c.max_height (pos 0)
    then ""
    else append "bestvideo[height<=?"
        (append height (append "]+bestaudio/best[height<=?" (append height "]/best")))

-- `NormalizePlayerClientPreference`
unfoldable pub normalize_player_client : String → String
normalize_player_client client =
    let name = trim_space client in
    if is_empty name || str_eq name "tv" || str_eq name "tv_simply"
    then auto_player_client
    else name

-- What `net/url` and `net.ParseIP` say of a URL: whether it has a user, its scheme, its host name,
-- and whether that is a loopback address.
pub record UrlParts : Type 0 where
  pub has_user : Bool
  pub scheme : String
  pub hostname : String
  pub is_loopback_ip : Bool

pub record ArgsEnv : Type 0 where
  pub table : CaseTable
  pub plugin_dir : YtdlConfig → String
  pub parse_url : String → Option UrlParts

-- `httpURLScheme`
unfoldable pub http_url_scheme : CaseTable → String → Bool
unfolding equal_fold
http_url_scheme table scheme = equal_fold table scheme "http" || equal_fold table scheme "https"

abbrev is_loopback_url : CaseTable → Option UrlParts → Bool
is_loopback_url table none = false
is_loopback_url table (some u) =
    if u.has_user || not (http_url_scheme table u.scheme) || is_empty u.hostname
    then false
    else equal_fold table u.hostname "localhost" || u.is_loopback_ip

-- `loopbackProviderURL`
unfoldable pub loopback_provider_url : ArgsEnv → String → Bool
unfolding http_url_scheme equal_fold
loopback_provider_url env raw = is_loopback_url env.table (env.parse_url raw)

-- `potExtractorArgs`
unfoldable pub pot_extractor_args : ArgsEnv → YtdlConfig → List String
unfolding loopback_provider_url equal_fold
pot_extractor_args env c =
    let provider = trim_space c.pot_provider in
    if is_empty provider
    then []
    else if equal_fold env.table (trim_space c.pot_mode) "http"
    then (if loopback_provider_url env provider
        then append "youtubepot-bgutilhttp:base_url=" provider ∷ []
        else [])
    else append "youtubepot-bgutilscript:server_home=" provider ∷ []

-- A flag with its value, where the test holds.
abbrev pub flag : Bool → String → String → List String
flag test name value = if test then name ∷ value ∷ [] else []

abbrev pub flags : String → List String → List String
flags name [] = []
flags name (value ∷ values) = name ∷ value ∷ flags name values

-- `CommandArgs`
unfoldable pub command_args : ArgsEnv → YtdlConfig → List String
unfolding runtime_text format_selector pot_extractor_args is_found
command_args env c =
    "--ignore-config"
    ∷ "--no-plugin-dirs"
    ∷ (flag (not (is_empty (env.plugin_dir c))) "--plugin-dirs" (env.plugin_dir c)
        ++ (flag (is_found c.js_runtime) "--js-runtimes" (runtime_text c.js_runtime)
            ++ (flag (has_fixed_client c) "--extractor-args"
                  (append "youtube:player_client=" c.player_client)
                ++ (flags "--extractor-args" (pot_extractor_args env c)
                    ++ (flag c.allow_remote_components "--remote-components" "ejs:github"
                        ++ (flag (not (is_empty c.cookies_from_browser)) "--cookies-from-browser"
                              c.cookies_from_browser
                            ++ (flag (not (is_empty c.cookies_file)) "--cookies" c.cookies_file
                                ++ flag (not (is_empty (format_selector c))) "--format"
                                    (format_selector c))))))))

-- `strings.Join(parts, " ")`
unfoldable pub join_blank : List String → String
join_blank [] = ""
join_blank (s ∷ []) = s
join_blank (s ∷ t ∷ parts) = append s (append " " (join_blank (t ∷ parts)))

abbrev word : Bool → String → List String
word test text = if test then text ∷ [] else []

-- `Redacted`
unfoldable pub redacted : YtdlConfig → String
unfolding join_blank is_found
redacted c = join_blank (
    (if is_found c.js_runtime then append "js-runtime=" c.js_runtime.name else "js-runtime=ausente")
    ∷ (word (not (is_empty c.player_client)) (append "player-client=" c.player_client)
        ++ (word (not (is_empty c.pot_provider)) "pot-provider=configurado"
            ++ (word c.allow_remote_components "remote-components=ejs:github"
                ++ ((if not (is_empty c.cookies_from_browser)
                      then "cookies=navegador"
                      else if not (is_empty c.cookies_file)
                      then "cookies=arquivo"
                      else "cookies=não")
                    ∷ word (not (leb_ℤ c.max_height (pos 0)))
                        (append "max-height=" (itoa (pos_part c.max_height))))))))

-- `strings.Cut(s, "+")`: what stands before and after the first `+`, and whether there is one
unfoldable pub cut_plus : String → String × String × Bool
cut_plus String.[] = (String.[], String.[], false)
cut_plus (String.◌∷◌ c s) =
    let rest = cut_plus s in
    if code c == b'+' then (String.[], s, true) else (String.◌∷◌ c rest.0, rest.1, rest.2)

abbrev pub allowed_browsers : List String
allowed_browsers = "brave" ∷ "chrome" ∷ "chromium" ∷ "edge" ∷ "firefox" ∷ "opera" ∷ "vivaldi" ∷ []

abbrev pub allowed_keyrings : List String
allowed_keyrings = "basictext" ∷ "gnomekeyring" ∷ "kwallet" ∷ "kwallet5" ∷ "kwallet6" ∷ []

abbrev pub is_in : List String → String → Bool
is_in terms s = any (str_eq s) terms

pub data CookieSourceError : Type 0 where
  unknown_browser : String → CookieSourceError
  unknown_keyring : String → CookieSourceError

unfoldable pub checked_source : String × String × Bool → CookieSourceError ⊎ String
unfolding contains
checked_source (browser, keyring, has_keyring) =
    if not (is_in allowed_browsers browser)
    then inl (unknown_browser browser)
    else if not has_keyring
    then inr browser
    else if is_empty keyring || contains keyring "+" || not (is_in allowed_keyrings keyring)
    then inl (unknown_keyring keyring)
    else inr (append browser (append "+" keyring))

-- `NormalizeBrowserCookieSource`
unfoldable pub normalize_browser_cookie_source : CaseTable → String → CookieSourceError ⊎ String
unfolding cut_plus checked_source
normalize_browser_cookie_source table source =
    let name = to_lower table (trim_space source) in
    if is_empty name then inr "" else checked_source (cut_plus name)
