-- ===== src/Playback/Ytdlp/Format.antt =====
-- internal/playback/explicit_ytdlp.go: the records of yt-dlp's JSON, and the tests on one format.
-- `abr`, a float of kilobits per second, is a whole number of thousandths.
use hummtube.Base.{
  ℕ, ◌+◌, ℤ, pos, ◌+ℤ◌, leb_ℤ, Bool, false, not, ◌&&◌, ◌||◌, String, List, ◌∷◌, [], is_empty,
  str_eq, has_prefix, contains, trim_space, any, if◌then◌else◌,
}
use hummtube.Domain.Vocabulary.{CaseTable, Duration, to_lower, equal_fold}

-- `YtDlpFormatJSON`
pub record Format : Type 0 where
  pub format_id : String
  pub url : String
  pub ext : String
  pub protocol : String
  pub vcodec : String
  pub acodec : String
  pub abr : ℤ
  pub height : ℤ
  pub width : ℤ
  pub resolution : String
  pub http_headers : List (String × String)

-- `YtDlpVideoJSON`; the duration in nanoseconds
pub record VideoInfo : Type 0 where
  pub id : String
  pub title : String
  pub duration : Duration
  pub expires : ℤ
  pub url : String
  pub http_headers : List (String × String)
  pub requested_formats : List Format
  pub formats : List Format

-- `codec != "" && codec != "none"`
abbrev pub has_codec : String → Bool
has_codec codec = not (is_empty codec) && not (str_eq codec "none")

abbrev pub has_video : Format → Bool
has_video f = has_codec f.vcodec

abbrev pub has_audio : Format → Bool
has_audio f = has_codec f.acodec

-- `maxHeight > 0 && format.Height > maxHeight`
abbrev pub is_too_high : ℤ → Format → Bool
is_too_high max_height f = not (leb_ℤ max_height (pos 0)) && not (leb_ℤ f.height max_height)

-- `playableFormat`
unfoldable pub playable_format : Format → Bool
playable_format f = if is_empty f.url then false else has_video f || has_audio f

-- `playableVideoFormat`
unfoldable pub playable_video_format : ℤ → Format → Bool
unfolding playable_format
playable_video_format max_height f =
    if not (playable_format f) || not (has_video f)
    then false
    else leb_ℤ max_height (pos 0) || leb_ℤ f.height (pos 0) || leb_ℤ f.height max_height

abbrev is_one_of : String → List String → Bool
is_one_of value terms = any (λ term. str_eq value term) terms

module _ (table : CaseTable) where
  -- `strings.ToLower(strings.TrimSpace(s))`
  unfoldable pub folded : String → String
  folded s = to_lower table (trim_space s)

  unfoldable pub is_web_protocol : Format → Bool
  unfolding folded
  is_web_protocol f =
      is_one_of (folded f.protocol) ("" ∷ "http" ∷ "https" ∷ "m3u8" ∷ "m3u8_native" ∷ [])

  -- `isDirectWebVideoFormat`
  unfoldable pub is_direct_web_video_format : Format → Bool
  unfolding folded is_web_protocol
  is_direct_web_video_format f =
      if is_web_protocol f then is_one_of (folded f.ext) ("" ∷ "mp4" ∷ "webm" ∷ []) else false

  -- `isLegacyWebVideoCodec`
  unfoldable pub is_legacy_web_video_codec : Format → Bool
  unfolding folded has_prefix contains
  is_legacy_web_video_codec f =
      let codec = folded f.vcodec in has_prefix codec "avc1" || contains codec "h264"

  -- `isLegacyWebAudioCodec`
  unfoldable pub is_legacy_web_audio_codec : Format → Bool
  unfolding folded has_prefix
  is_legacy_web_audio_codec f =
      let codec = folded f.acodec in has_prefix codec "mp4a" || has_prefix codec "aac"

  -- `webVideoPreference`
  unfoldable pub web_video_preference : Format → ℕ
  unfolding is_legacy_web_video_codec is_legacy_web_audio_codec equal_fold
  web_video_preference f =
      (if is_legacy_web_video_codec f then 1000 else 0)
      + (if is_legacy_web_audio_codec f then 250 else 0)
      + (if has_audio f then 100 else 0)
      + (if equal_fold table f.ext "mp4" then 20 else 0)

  -- `webAudioPreference`, in thousandths
  unfoldable pub web_audio_preference : Format → ℤ
  unfolding is_legacy_web_audio_codec equal_fold
  web_audio_preference f =
      f.abr
      +ℤ pos (if is_legacy_web_audio_codec f then 10_000_000 else 0)
      +ℤ pos (if equal_fold table f.ext "m4a" || equal_fold table f.ext "mp4" then 1_000_000 else 0)

  -- The codecs of `isWebAudioFormat` for an extension.
  unfoldable pub is_web_audio_codec : String → String → Bool
  unfolding has_prefix contains
  is_web_audio_codec extension codec =
      let mp4a = has_prefix codec "mp4a" || has_prefix codec "aac" in
      let opus = has_prefix codec "opus" || has_prefix codec "vorbis" in
      if is_one_of extension ("m4a" ∷ "mp4" ∷ [])
      then mp4a
      else if str_eq extension "webm"
      then opus
      else if str_eq extension "mp3"
      then contains codec "mp3"
      else if is_one_of extension ("ogg" ∷ "oga" ∷ [])
      then opus
      else if is_empty extension
      then mp4a || opus || contains codec "mp3"
      else false

  -- `isWebAudioFormat`
  unfoldable pub is_web_audio_format : Format → Bool
  unfolding folded is_web_protocol is_web_audio_codec
  is_web_audio_format f =
      if is_empty f.url || not (str_eq f.vcodec "none") || not (has_audio f)
      then false
      else if is_web_protocol f
      then is_web_audio_codec (folded f.ext) (folded f.acodec)
      else false
