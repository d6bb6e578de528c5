-- ===== src/Playback/Ytdlp/Tests.antt =====
-- The theorems on the yt-dlp resolver at concrete inputs.
use hummtube.Base.{
  ◌≡◌, refl, Bool, true, false, String, List, [], ◌∷◌, Option, none, some, ◌⊎◌, inl, inr, pos, any,
  All, str_eq, has_prefix, IsStrict, eqb_ℤ, map_chars, ◌&&◌, if◌then◌else◌, trim_space, contains,
  itoa,
}
use mathlib.Core.Option
use hummtube.Domain.Vocabulary.{CaseTable, to_lower}
use hummtube.Domain.Playback.{PlaybackRequest, PlaybackPlan}
use hummtube.Playback.Failure.Kind.{YtdlConfig}
use hummtube.Playback.Failure.{says_expired, describe, first_match, failure_needles}
use hummtube.Playback.Selection.{ResolveError, can_try_next_client}
use hummtube.Playback.Ytdlp.Format.{
  Format, VideoInfo, has_audio, playable_video_format, is_direct_web_video_format,
  is_legacy_web_video_codec, is_legacy_web_audio_codec, is_web_audio_format,
}
use hummtube.Playback.Ytdlp.Headers.{Url}
use hummtube.Playback.Ytdlp.Pick.{
  pick, select_web_playable_formats, select_muxed_format, is_muxed, muxed_format_preferred,
}
use hummtube.Playback.Ytdlp.Pick.Best.{IsBest, select_muxed_format-IsBest}
use hummtube.Playback.Ytdlp.Pick.Chosen.{AreChosen, select_web_playable_formats-AreChosen}
use hummtube.Playback.Ytdlp.Variants.{is_taller, variant_of, build_web_variants}
use hummtube.Playback.Ytdlp.Variants.Best.{is_not_worse}
use hummtube.Playback.Ytdlp.Variants.Sorted.{IsVariantOf, at_variant}
use hummtube.Playback.Ytdlp.Variants.Listed.{
  is_offered, build_web_variants-IsStrict, build_web_variants-find,
}
use hummtube.Playback.Ytdlp.Plan.{format_key, merge_formats, build_plan_from_info}
use hummtube.Playback.Ytdlp.Plan.Sound.{IsSound, build_plan_from_info-IsSound}
use hummtube.Playback.Ytdlp.Plan.Merged.{AreNew, stands_in, merge_formats-stands_in}
use hummtube.Playback.Ytdlp.Args.{redacted, normalize_browser_cookie_source}
use hummtube.Playback.Ytdlp.Args.Redaction.{redacted-alike}
use hummtube.Playback.Ytdlp.Args.Cookies.{
  IsCookieSource, normalize_browser_cookie_source-IsCookieSource,
}
use hummtube.Playback.Ytdlp.RawOptions.{raw_pairs, raw_options}
use hummtube.Playback.Ytdlp.RawOptions.Split.{IsRawText, raw_options-split_commas}
use hummtube.Playback.Ytdlp.Client.{
  Ran, printed, Env, try_clients, resolve, resolve_with_config, has_pot, local_plan,
}
use hummtube.Playback.Ytdlp.Client.Tried.{IsMwebTurn, asked, try_clients-first, resolve-mweb}

abbrev caseless : CaseTable
caseless = record { lower = λ c. c; upper = λ c. c; fold = λ c. c }

abbrev agent : List (String × String)
agent = ("User-Agent", "tube") ∷ ("Cookie", "secret") ∷ []

abbrev muxed_720 : Format
muxed_720 = record {
  format_id = "22";
  url = "https://cdn/22";
  ext = "mp4";
  protocol = "https";
  vcodec = "avc1.64001F";
  acodec = "mp4a.40.2";
  abr = pos 128000;
  height = pos 720;
  width = pos 1280;
  resolution = "";
  http_headers = agent;
}

abbrev muxed_360 : Format
muxed_360 = record muxed_720 {
  format_id = "18";
  url = "https://cdn/18";
  height = pos 360;
  width = pos 640;
}

abbrev video_1080 : Format
video_1080 = record muxed_720 {
  format_id = "137";
  url = "https://cdn/137";
  acodec = "none";
  height = pos 1080;
  width = pos 1920;
}

abbrev audio : Format
audio = record muxed_720 {
  format_id = "140";
  url = "https://cdn/140";
  ext = "m4a";
  vcodec = "none";
  height = pos 0;
  width = pos 0;
}

abbrev formats : List Format
formats = muxed_360 ∷ audio ∷ muxed_720 ∷ video_1080 ∷ []

abbrev info : VideoInfo
info = record {
  id = "v";
  title = "A video";
  duration = pos 0;
  expires = pos 0;
  url = "";
  http_headers = [];
  requested_formats = video_1080 ∷ audio ∷ [];
  formats = formats;
}

abbrev parse : String → Option Url
parse s = if has_prefix s "https://" then some ("https", "cdn") else none

abbrev query : String → Option (String → String)
query s = none

-- The limit of 720 lines leaves the muxed format of that height and the separate audio.
chosen_720 : select_web_playable_formats caseless (pos 720) formats ≡ (some muxed_720, none)
unfolding select_web_playable_formats playable_video_format is_direct_web_video_format to_lower
    map_chars trim_space is_legacy_web_video_codec is_legacy_web_audio_codec
chosen_720 = refl

chosen_any : select_web_playable_formats caseless (pos 0) formats ≡ (some video_1080, some audio)
unfolding select_web_playable_formats playable_video_format is_direct_web_video_format to_lower
    map_chars trim_space is_legacy_web_video_codec is_legacy_web_audio_codec is_web_audio_format
chosen_any = refl

select_web_playable_formats-AreChosen_example :
    AreChosen caseless (pos 720) formats (select_web_playable_formats caseless (pos 720) formats)
select_web_playable_formats-AreChosen_example =
    select_web_playable_formats-AreChosen caseless (pos 720) formats

select_muxed_format-IsBest_example :
    IsBest
      (is_muxed (pos 720))
      (muxed_format_preferred caseless)
      formats
      (select_muxed_format caseless (pos 720) formats)
select_muxed_format-IsBest_example = select_muxed_format-IsBest caseless (pos 720) formats

build_web_variants-IsStrict_example :
    IsStrict is_taller (build_web_variants caseless formats (pos 720))
    × All
        (IsVariantOf caseless (is_offered caseless formats (pos 720)) has_audio formats)
        (build_web_variants caseless formats (pos 720))
build_web_variants-IsStrict_example = build_web_variants-IsStrict caseless formats (pos 720)

build_web_variants-find_example :
    at_variant (pos 720) (build_web_variants caseless formats (pos 720))
    ≡ Option.map
        (λ f. variant_of caseless has_audio (pos 720, f))
        (pick
          (λ f. is_offered caseless formats (pos 720) f && eqb_ℤ f.height (pos 720))
          (is_not_worse caseless)
          none
          formats)
build_web_variants-find_example = build_web_variants-find caseless formats (pos 720) (pos 720)

build_plan_from_info-IsSound_example :
    IsSound caseless parse query (build_plan_from_info caseless parse query info (pos 0))
build_plan_from_info-IsSound_example =
    build_plan_from_info-IsSound caseless parse query info (pos 0)

merge_formats-stands_in_example :
    AreNew [] (merge_formats formats (audio ∷ []))
    × (stands_in (merge_formats formats (audio ∷ [])) audio ≡ true)
unfolding format_key trim_space
merge_formats-stands_in_example = merge_formats-stands_in formats (audio ∷ []) audio refl

abbrev settings : YtdlConfig
settings = record {
  yt_dlp_path = "/usr/bin/yt-dlp";
  js_runtime = record { name = "deno"; path = "/usr/bin/deno" };
  player_client = "";
  pot_provider = "http://127.0.0.1:4416";
  pot_mode = "http";
  cookies_from_browser = "firefox";
  cookies_file = "";
  allow_remote_components = false;
  max_height = pos 720;
}

redacted-alike_example :
    redacted settings
    ≡ redacted (record settings { pot_provider = "/srv/pot"; cookies_from_browser = "chrome" })
redacted-alike_example =
    redacted-alike settings
      (record settings { pot_provider = "/srv/pot"; cookies_from_browser = "chrome" })
      (refl, refl, refl, refl, refl, refl, refl, refl)

normalize_browser_cookie_source-IsCookieSource_example : IsCookieSource "chrome+kwallet6"
unfolding normalize_browser_cookie_source to_lower map_chars trim_space
normalize_browser_cookie_source-IsCookieSource_example =
    normalize_browser_cookie_source-IsCookieSource caseless " chrome+kwallet6 " "chrome+kwallet6"
      refl

-- A run for the client `android` finds no format; one for `mweb` finds them all.
abbrev is_android : List String → Bool
is_android args = any (str_eq "youtube:player_client=android") args

abbrev runs : List String → Ran
runs args =
    if is_android args
    then printed "" (inr (record info { formats = []; requested_formats = [] }))
    else printed "" (inr info)

abbrev env : Env
env = record {
  args = record {
    table = caseless;
    plugin_dir = λ _. "";
    parse_url = λ s. some (record {
      has_user = false;
      scheme = "http";
      hostname = "127.0.0.1";
      is_loopback_ip = true;
    });
  };
  sanitize = λ s. s;
  parse = parse;
  query = query;
  binary = some "/usr/bin/yt-dlp";
  pot_available = λ _. true;
  run = runs;
}

abbrev plan_of : ResolveError ⊎ PlaybackPlan → PlaybackPlan
plan_of (inl e) = local_plan env ""
plan_of (inr plan) = plan

abbrev mweb_plan : PlaybackPlan
mweb_plan = plan_of (asked env false "https://youtu.be/v" settings "mweb")

try_clients-first_example :
    try_clients env false "https://youtu.be/v" settings [] ("android" ∷ "mweb" ∷ [])
    ≡ ("android" ∷ "mweb" ∷ [], inr mweb_plan)
unfolding resolve_with_config can_try_next_client says_expired contains to_lower map_chars describe
    first_match failure_needles trim_space itoa playable_video_format is_direct_web_video_format
    is_legacy_web_video_codec is_legacy_web_audio_codec
try_clients-first_example =
    try_clients-first env false "https://youtu.be/v" settings ("android" ∷ []) [] "mweb" mweb_plan
      [] refl refl

abbrev some_video : PlaybackRequest
some_video = record { source_url = "https://youtu.be/v"; video_id = "v" }

resolve-mweb_example :
    (has_pot env settings ≡ true)
    × IsMwebTurn settings (resolve env false settings false some_video).0
unfolding resolve has_prefix trim_space map_chars says_expired contains to_lower describe
    first_match failure_needles
resolve-mweb_example = resolve-mweb env false settings false some_video refl

raw_options_test :
    raw_options env.args settings
    ≡ inr
        "js-runtimes=deno:/usr/bin/deno,extractor-args=youtubepot-bgutilhttp:base_url=http://127.0.0.1:4416,cookies-from-browser=firefox,format=bestvideo[height<=?720]+bestaudio/best[height<=?720]/best"
unfolding raw_options trim_space map_chars itoa
raw_options_test = refl

raw_options-split_commas_example :
    IsRawText (raw_pairs env.args settings) (raw_options env.args settings)
raw_options-split_commas_example = raw_options-split_commas env.args settings
