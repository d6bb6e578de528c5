-- ===== src/Playback/Failure/Kind.antt =====
-- internal/playback/failure.go: the kinds of failure and the failure that the user sees; and of
-- internal/playback/ytdl.go the settings of the extractor.
use hummtube.Base.{ℤ, Bool, not, ◌&&◌, ◌||◌, String, is_empty, str_eq, trim_space}

pub data FailureKind : Type 0 where
  unknown bot_check rate_limited no_formats media_blocked ytdlp_missing unavailable network
        extractor_missing extractor_outdated js_runtime_missing ejs_missing pot_provider_missing
        pot_generation visitor_data_missing extractor_timeout extractor_output_limit gvs_forbidden
        drm restricted cookie_decryption expired_media_url player :
      FailureKind

pub record Failure : Type 0 where
  pub kind : FailureKind
  pub summary : String
  pub hint : String
  pub detail : String

pub record JsRuntime : Type 0 where
  pub name : String
  pub path : String

-- `Found`
unfoldable pub is_found : JsRuntime → Bool
is_found r = not (is_empty r.name) && not (is_empty r.path)

pub record YtdlConfig : Type 0 where
  pub yt_dlp_path : String
  pub js_runtime : JsRuntime
  pub player_client : String
  pub pot_provider : String
  pub pot_mode : String
  pub cookies_from_browser : String
  pub cookies_file : String
  pub allow_remote_components : Bool
  pub max_height : ℤ

abbrev pub auto_player_client : String
auto_player_client = "auto"

-- `withoutCookies`
unfoldable pub without_cookies : YtdlConfig → YtdlConfig
without_cookies c = record c { cookies_from_browser = ""; cookies_file = "" }

-- `hasCookies`
unfoldable pub has_cookies : YtdlConfig → Bool
has_cookies c =
    not (is_empty (trim_space c.cookies_from_browser)) || not (is_empty (trim_space c.cookies_file))

-- A client is set, and not the automatic choice.
abbrev pub has_fixed_client : YtdlConfig → Bool
has_fixed_client c =
    not (is_empty c.player_client) && not (str_eq c.player_client auto_player_client)
