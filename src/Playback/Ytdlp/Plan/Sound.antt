-- ===== src/Playback/Ytdlp/Plan/Sound.antt =====
-- What every plan of the resolver keeps: its headers are allowed ones, and separate tracks go
-- together.
use hummtube.Base.{
  ℤ, ◌≡◌, refl, true, not, ◌&&◌, String, List, [], ◌∷◌, Option, none, some, ◌⊎◌, inl, inr, All, all,
  all-keep, Bool-cases, is_empty,
}
use mathlib.Core.Option
use hummtube.Domain.Vocabulary.{CaseTable}
use hummtube.Domain.Playback.{ResolvedStream, PlaybackVariant, PlaybackPlan}
use hummtube.Playback.Ytdlp.Format.{Format, VideoInfo, has_audio, is_web_audio_format}
use hummtube.Playback.Ytdlp.Headers.{
  Headers, Url, is_allowed_header, sanitize_playback_headers, resolved_stream_from_format,
}
use hummtube.Playback.Ytdlp.Pick.{
  pick, select_muxed_format, select_web_audio_stream, select_web_playable_formats, sounds_better,
}
use hummtube.Playback.Ytdlp.Variants.Sorted.{IsVariantOf}
use hummtube.Playback.Ytdlp.Variants.Listed.{is_offered, build_web_variants-IsStrict}
use hummtube.Playback.Ytdlp.Plan.{
  no_media_url, incompatible_headers, Streams, stream_of, audio_of, primary_of, can_share,
  muxed_streams, settle_streams, streams_of, plan_with, planned, merge_formats,
  build_plan_from_info,
}

module _ (table : CaseTable) where
  -- Every header of the stream has an allowed name, and a value that is short and on one line.
  abbrev pub IsClean : ResolvedStream → Type 0
  IsClean s = all (is_allowed_header table) s.headers ≡ true

  abbrev pub IsCleanIf : Option ResolvedStream → Type 0
  IsCleanIf none = Unit
  IsCleanIf (some s) = IsClean s

  sanitized-IsClean :
      (headers : Headers)
      → all (is_allowed_header table) (sanitize_playback_headers table headers) ≡ true
  unfolding sanitize_playback_headers
  sanitized-IsClean headers = all-keep (is_allowed_header table) headers

  resolved-IsClean : (f : Format) → IsClean (resolved_stream_from_format table f)
  unfolding resolved_stream_from_format
  resolved-IsClean f = sanitized-IsClean f.http_headers

  map-IsClean : (o : Option Format) → IsCleanIf (Option.map (resolved_stream_from_format table) o)
  map-IsClean none = tt
  map-IsClean (some f) = resolved-IsClean f

  stream_of-IsClean : (o : Option Format) → IsClean (stream_of table o)
  stream_of-IsClean none = refl
  stream_of-IsClean (some f) = resolved-IsClean f

  audio_of-IsClean : (o : Option Format) → IsCleanIf (audio_of table o)
  audio_of-IsClean none = tt
  audio_of-IsClean (some f) = resolved-IsClean f

  primary_of-IsClean :
      (info : VideoInfo) (video : Option Format) → IsClean (primary_of table info video)
  unfolding primary_of
  primary_of-IsClean info video =
      elim (Bool-cases (is_empty (stream_of table video).url && not (is_empty info.url))) [
        | inl y ↦ rw y (sanitized-IsClean info.http_headers)
        | inr n ↦ rw n (stream_of-IsClean video)
      ]

  variants-IsClean :
      (formats : List Format) (max_height : ℤ) (variants : List PlaybackVariant)
      → All (IsVariantOf table (is_offered table formats max_height) has_audio formats) variants
      → All (λ v. IsClean v.stream) variants
  variants-IsClean formats max_height [] h = tt
  variants-IsClean formats max_height (v ∷ variants) ((f, i, good, e), rest) =
      (rw e (resolved-IsClean f), variants-IsClean formats max_height variants rest)

  module _ (parse : String → Option Url) where
    -- Where the audio is a track of its own, the player can send both its headers.
    abbrev pub GoTogether : ResolvedStream → Option ResolvedStream → Type 0
    GoTogether primary none = Unit
    GoTogether primary (some audio) = can_share table parse primary audio ≡ true

    abbrev AreSettled : String ⊎ Streams → Type 0
    AreSettled (inl e) = (e ≡ no_media_url) ⊎ (e ≡ incompatible_headers)
    AreSettled (inr (primary, audio)) =
        (IsClean primary × IsCleanIf audio) × GoTogether primary audio

    muxed_streams-AreSettled : (o : Option Format) → AreSettled (muxed_streams table parse o)
    muxed_streams-AreSettled none = inr refl
    muxed_streams-AreSettled (some f) = ((resolved-IsClean f, tt), tt)

    settle_streams-AreSettled :
        (muxed : Option Format) (primary : ResolvedStream) (audio : Option ResolvedStream)
        → IsClean primary
        → IsCleanIf audio
        → AreSettled (settle_streams table parse muxed primary audio)
    unfolding settle_streams
    settle_streams-AreSettled muxed primary none p a = ((p, tt), tt)
    settle_streams-AreSettled muxed primary (some audio) p a =
        elim (Bool-cases (can_share table parse primary audio)) [
          | inl y ↦ rw y ((p, a), y)
          | inr n ↦ rw n (muxed_streams-AreSettled muxed)
        ]

    streams_of-AreSettled :
        (info : VideoInfo) (formats : List Format) (max_height : ℤ)
        → AreSettled (streams_of table parse info formats max_height)
    unfolding streams_of
    streams_of-AreSettled info formats max_height =
        let selected = select_web_playable_formats table max_height formats in
        let primary = primary_of table info selected.0 in
        elim (Bool-cases (is_empty primary.url)) [
          | inl y ↦ rw y (inl refl)
          | inr n ↦ rw n (
              settle_streams-AreSettled (select_muxed_format table max_height formats) primary
                (audio_of table selected.1) (primary_of-IsClean info selected.0)
                (audio_of-IsClean selected.1))
        ]

    module _ (query : String → Option (String → String)) where
      -- One of the two errors; or a plan of which every stream has allowed headers only, and whose
      -- separate audio goes together with its video.
      abbrev pub IsSound : String ⊎ PlaybackPlan → Type 0
      IsSound (inl e) = (e ≡ no_media_url) ⊎ (e ≡ incompatible_headers)
      IsSound (inr plan) =
          (IsClean plan.primary
            × IsCleanIf plan.audio
            × IsCleanIf plan.audio_only
            × All (λ v. IsClean v.stream) plan.variants)
          × GoTogether plan.primary plan.audio

      planned-IsSound :
          (info : VideoInfo) (formats : List Format) (max_height : ℤ) (x : String ⊎ Streams)
          → AreSettled x
          → IsSound (planned table parse query info formats max_height x)
      unfolding plan_with select_web_audio_stream
      planned-IsSound info formats max_height (inl e) h = h
      planned-IsSound info formats max_height (inr (primary, audio)) ((p, a), g) = (
        (
          p,
          a,
          map-IsClean (pick (is_web_audio_format table) (sounds_better table) none formats),
          variants-IsClean formats max_height _
              (build_web_variants-IsStrict table formats max_height).1,
        ),
        g,
      )

      -- Whatever yt-dlp printed, the answer is one of two errors or a plan of which every stream has
      -- only headers with allowed names and short values on one line, and whose separate audio track
      -- has the headers of the video and may be sent them with it.
      pub build_plan_from_info-IsSound :
          (info : VideoInfo) (max_height : ℤ)
          → IsSound (build_plan_from_info table parse query info max_height)
      unfolding build_plan_from_info
      build_plan_from_info-IsSound info max_height =
          let formats = merge_formats info.formats info.requested_formats in
          planned-IsSound info formats max_height (streams_of table parse info formats max_height)
            (streams_of-AreSettled info formats max_height)
