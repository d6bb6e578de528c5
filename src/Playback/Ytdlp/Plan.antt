-- ===== src/Playback/Ytdlp/Plan.antt =====
-- internal/playback/explicit_ytdlp.go: the plan that is made of what yt-dlp printed.
pub mod Sound
pub mod Merged
use Prim.Native.String.{◌++◌ as append}
use hummtube.Base.{
  ℤ, pos, negsuc, Bool, true, false, not, ◌&&◌, ◌||◌, ◌==◌, String, List, [], ◌∷◌, ◌++◌, Option,
  none, some, ◌⊎◌, inl, inr, any, is_empty, str_eq, trim_space, if◌then◌else◌,
}
use hummtube.Domain.Vocabulary.{CaseTable, Time, playback_mode_resolved_media}
use hummtube.Domain.Playback.{ResolvedStream, PlaybackPlan}
use hummtube.Playback.Cache.{unix, earliest_expiry, playback_plan_urls}
use hummtube.Playback.Ytdlp.Format.{Format, VideoInfo}
use hummtube.Playback.Ytdlp.Headers.{
  Url, sanitize_playback_headers, resolved_stream_from_format, same_http_headers,
  compatible_cross_origin_headers,
}
use hummtube.Playback.Ytdlp.Pick.{
  Selected, select_muxed_format, select_web_audio_stream, select_web_playable_formats,
}
use hummtube.Playback.Ytdlp.Variants.{build_web_variants}

-- The key of `mergeYtDlpFormats`.
unfoldable pub format_key : Format → String
format_key f = append (trim_space f.format_id) (append "\0" (trim_space f.url))

-- The loop of `mergeYtDlpFormats`; `seen` holds the keys that were met.
unfoldable pub merge_from : List String → List Format → List Format
unfolding format_key
merge_from seen [] = []
merge_from seen (f ∷ formats) =
    let known = merge_from seen formats in
    let added = f ∷ merge_from (format_key f ∷ seen) formats in
    if any (str_eq (format_key f)) seen then known else added

-- `mergeYtDlpFormats` of two groups
unfoldable pub merge_formats : List Format → List Format → List Format
unfolding merge_from
merge_formats formats requested = merge_from [] (formats ++ requested)

abbrev pub no_media_url : String
no_media_url = "nenhuma url de mídia encontrada no json do yt-dlp"

abbrev pub incompatible_headers : String
incompatible_headers =
    "faixas adaptativas exigem cabeçalhos HTTP incompatíveis e não há formato muxado compatível"

-- `time.Unix(info.Expires, 0)`, where it is positive
abbrev known_expiry : ℤ → Time
known_expiry (negsuc n) = pos 0
known_expiry (pos n) = if n == 0 then pos 0 else unix n

abbrev no_stream : ResolvedStream
no_stream = record { url = ""; headers = [] }

-- The streams of a plan: the primary one, and the audio beside it.
abbrev pub Streams : Type 0
Streams = ResolvedStream × Option ResolvedStream

module _ (table : CaseTable) where
  abbrev stream_of : Option Format → ResolvedStream
  stream_of none = no_stream
  stream_of (some f) = resolved_stream_from_format table f

  abbrev audio_of : Option Format → Option ResolvedStream
  audio_of none = none
  audio_of (some f) = some (resolved_stream_from_format table f)

  -- `plan.Primary`: the chosen video, and else the URL of the whole answer.
  unfoldable pub primary_of : VideoInfo → Option Format → ResolvedStream
  unfolding resolved_stream_from_format sanitize_playback_headers
  primary_of info video =
      let chosen = stream_of video in
      if is_empty chosen.url && not (is_empty info.url)
      then record { url = info.url; headers = sanitize_playback_headers table info.http_headers }
      else chosen

  module _ (parse : String → Option Url) where
    -- A player that loads both can send each its headers.
    unfoldable pub can_share : ResolvedStream → ResolvedStream → Bool
    unfolding same_http_headers compatible_cross_origin_headers
    can_share primary audio =
        same_http_headers table primary.headers audio.headers
        && compatible_cross_origin_headers table parse primary.url audio.url primary.headers
            audio.headers

    -- One muxed stream in place of two that cannot go together.
    abbrev muxed_streams : Option Format → String ⊎ Streams
    muxed_streams none = inl incompatible_headers
    muxed_streams (some f) = inr (resolved_stream_from_format table f, none)

    unfoldable pub settle_streams :
        Option Format → ResolvedStream → Option ResolvedStream → String ⊎ Streams
    unfolding can_share resolved_stream_from_format
    settle_streams muxed primary none = inr (primary, none)
    settle_streams muxed primary (some audio) =
        if can_share primary audio then inr (primary, some audio) else muxed_streams muxed

    unfoldable pub streams_of : VideoInfo → List Format → ℤ → String ⊎ Streams
    unfolding select_web_playable_formats primary_of settle_streams select_muxed_format
    streams_of info formats max_height =
        let selected = select_web_playable_formats table max_height formats in
        let primary = primary_of info selected.0 in
        if is_empty primary.url
        then inl no_media_url
        else settle_streams (select_muxed_format table max_height formats) primary
            (audio_of selected.1)

    module _ (query : String → Option (String → String)) where
      -- The plan with these streams; it expires with the first of its URLs.
      unfoldable pub plan_with : VideoInfo → List Format → ℤ → Streams → PlaybackPlan
      unfolding build_web_variants select_web_audio_stream playback_plan_urls earliest_expiry
      plan_with info formats max_height (primary, audio) =
          let plan : PlaybackPlan = record {
            mode = playback_mode_resolved_media;
            load_target = "";
            options = [];
            primary = primary;
            audio = audio;
            audio_only = select_web_audio_stream table formats;
            variants = build_web_variants table formats max_height;
            subtitles = [];
            metadata = record { video_id = info.id; title = info.title; duration = info.duration };
            expires_at = known_expiry info.expires;
          } in
          record plan {
            expires_at = earliest_expiry query plan.expires_at (playback_plan_urls plan);
          }

      abbrev pub planned : VideoInfo → List Format → ℤ → String ⊎ Streams → String ⊎ PlaybackPlan
      planned info formats max_height (inl e) = inl e
      planned info formats max_height (inr streams) =
          inr (plan_with info formats max_height streams)

      -- `buildPlanFromInfoWithMaxHeight`; an error is its text.
      unfoldable pub build_plan_from_info : VideoInfo → ℤ → String ⊎ PlaybackPlan
      unfolding merge_formats streams_of plan_with
      build_plan_from_info info max_height =
          let formats = merge_formats info.formats info.requested_formats in
          planned info formats max_height (streams_of info formats max_height)
