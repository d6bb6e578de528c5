-- ===== src/Playback/Ytdlp/Pick.antt =====
-- internal/playback/explicit_ytdlp.go: the loops that pick one format of a list.
pub mod Best
pub mod Chosen
use hummtube.Base.{
  ℤ, pos, leb_ℤ, ltb_ℤ, eqb_ℤ, Bool, true, false, not, ◌&&◌, ◌||◌, ltb, String, List, [], ◌∷◌,
  Option, none, some, Option-cases, is_empty, if◌then◌else◌,
}
use mathlib.Core.Option
use hummtube.Domain.Vocabulary.{CaseTable}
use hummtube.Domain.Playback.{ResolvedStream}
use hummtube.Playback.Ytdlp.Format.{
  Format, has_video, has_audio, is_too_high, playable_video_format, is_direct_web_video_format,
  is_legacy_web_video_codec, is_legacy_web_audio_codec, web_video_preference, web_audio_preference,
  is_web_audio_format,
}
use hummtube.Playback.Ytdlp.Headers.{resolved_stream_from_format}

abbrev pub bool_eq : Bool → Bool → Bool
bool_eq true b = b
bool_eq false b = not b

module _ {A : Type 0} where
  -- `selected == nil || better(candidate, *selected)`
  abbrev pub beats : (A → A → Bool) → A → Option A → Bool
  beats better f none = true
  beats better f (some g) = better f g

  -- A loop that keeps the candidate that is preferred to the one before.
  unfoldable pub pick : (A → Bool) → (A → A → Bool) → Option A → List A → Option A
  pick ok better selected [] = selected
  pick ok better selected (f ∷ formats) =
      pick ok better (if ok f && beats better f selected then some f else selected) formats

abbrev pub is_higher : Format → Format → Bool
is_higher f g = ltb_ℤ g.height f.height

-- The accumulators of the loops that choose a video and an audio format.
pub record Choice : Type 0 where
  pub muxed : Option Format
  pub video_only : Option Format
  pub audio_only : Option Format

abbrev pub nothing_chosen : Choice
nothing_chosen = record { muxed = none; video_only = none; audio_only = none }

-- One turn of the loop of `selectPlayableFormats`.
unfoldable pub playable_turn : ℤ → Format → Choice → Choice
playable_turn max_height f c =
    if is_empty f.url || is_too_high max_height f
    then c
    else if has_video f && has_audio f
    then (if beats is_higher f c.muxed then record c { muxed = some f } else c)
    else let seen =
        if has_video f && beats is_higher f c.video_only
        then record c { video_only = some f }
        else c in
      if has_audio f then record seen { audio_only = some f } else seen

unfoldable pub playable_loop : ℤ → List Format → Choice → Choice
unfolding playable_turn
playable_loop max_height [] c = c
playable_loop max_height (f ∷ formats) c =
    playable_loop max_height formats (playable_turn max_height f c)

-- The video-only and the audio format, where both are there and the video is higher than the muxed
-- one, if any.
abbrev pub takes_pair : Option Format → Option Format → Option Format → Option (Format × Format)
takes_pair muxed (some v) (some a) = if beats is_higher v muxed then some (v, a) else none
takes_pair muxed (some v) none = none
takes_pair muxed none a = none

-- A video and an audio format.
abbrev pub Selected : Type 0
Selected = Option Format × Option Format

abbrev pub pair_or : Option (Format × Format) → Selected → Selected
pair_or none other = other
pair_or (some (v, a)) other = (some v, some a)

abbrev pub muxed_or : Option Format → Selected → Selected
muxed_or none other = other
muxed_or (some m) other = (some m, none)

-- `selectPlayableFormats`
unfoldable pub select_playable_formats : ℤ → List Format → Selected
unfolding playable_loop
select_playable_formats max_height formats =
    let c = playable_loop max_height formats nothing_chosen in
    pair_or (takes_pair c.muxed c.video_only c.audio_only) (c.muxed, none)

-- `selectMuxedFormat` skips the others.
abbrev pub is_muxed : ℤ → Format → Bool
is_muxed max_height f =
    if is_empty f.url || not (has_video f) || not (has_audio f)
    then false
    else not (is_too_high max_height f)

module _ (table : CaseTable) where
  unfoldable pub is_legacy_pair : Format → Bool
  is_legacy_pair f = is_legacy_web_video_codec table f && is_legacy_web_audio_codec table f

  -- `muxedFormatPreferred`
  unfoldable pub muxed_format_preferred : Format → Format → Bool
  unfolding is_legacy_pair
  muxed_format_preferred candidate current =
      if not (bool_eq (is_legacy_pair candidate) (is_legacy_pair current))
      then is_legacy_pair candidate
      else if not (eqb_ℤ candidate.height current.height)
      then is_higher candidate current
      else ltb (web_video_preference table current) (web_video_preference table candidate)

  -- `selectMuxedFormat`
  unfoldable pub select_muxed_format : ℤ → List Format → Option Format
  unfolding pick muxed_format_preferred
  select_muxed_format max_height formats =
      pick (is_muxed max_height) muxed_format_preferred none formats

  abbrev pub sounds_better : Format → Format → Bool
  sounds_better f g = ltb_ℤ (web_audio_preference table g) (web_audio_preference table f)

  -- `selectWebAudioStream`
  unfoldable pub select_web_audio_stream : List Format → Option ResolvedStream
  unfolding pick resolved_stream_from_format
  select_web_audio_stream formats =
      Option.map (resolved_stream_from_format table)
        (pick (is_web_audio_format table) sounds_better none formats)

  -- The first loop of `selectWebPlayableFormats` skips the others.
  abbrev pub is_baseline_video : ℤ → Format → Bool
  is_baseline_video max_height f =
      playable_video_format max_height f
      && is_direct_web_video_format table f
      && is_legacy_web_video_codec table f

  abbrev pub is_better_muxed : Format → Format → Bool
  is_better_muxed f g =
      is_higher f g
      || (eqb_ℤ f.height g.height
          && ltb (web_video_preference table g) (web_video_preference table f))

  -- One turn of the first loop of `selectWebPlayableFormats`.
  unfoldable pub web_turn : ℤ → Format → Choice → Choice
  web_turn max_height f c =
      if not (is_baseline_video max_height f)
      then c
      else if has_audio f && is_legacy_web_audio_codec table f
      then (if beats is_better_muxed f c.muxed then record c { muxed = some f } else c)
      else if not (has_audio f) && beats is_higher f c.video_only
      then record c { video_only = some f }
      else c

  unfoldable pub web_loop : ℤ → List Format → Choice → Choice
  unfolding web_turn
  web_loop max_height [] c = c
  web_loop max_height (f ∷ formats) c = web_loop max_height formats (web_turn max_height f c)

  abbrev pub is_baseline_audio : Format → Bool
  is_baseline_audio f = is_web_audio_format table f && is_legacy_web_audio_codec table f

  -- `selectWebPlayableFormats`
  unfoldable pub select_web_playable_formats : ℤ → List Format → Selected
  unfolding web_loop pick select_playable_formats
  select_web_playable_formats max_height formats =
      let c = web_loop max_height formats nothing_chosen in
      let audio_only = pick is_baseline_audio sounds_better none formats in
      pair_or (takes_pair c.muxed c.video_only audio_only)
        (muxed_or c.muxed (select_playable_formats max_height formats))
