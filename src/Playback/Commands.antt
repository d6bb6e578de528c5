-- ===== src/Playback/Commands.antt =====
-- internal/playback/controller.go: the commands that the controller passes on to the player, and
-- what it reports. The player (`domain.Player`, an mpv adapter in Go) is a parameter: the type of
-- its states, and what each operation answers and leaves. Floats are an abstract type.
pub mod Closed
use hummtube.Base.{
  ℤ, Bool, true, false, not, ◌&&◌, String, List, Option, none, some, is_empty, if◌then◌else◌,
}
use hummtube.Domain.Vocabulary.{Duration}
use hummtube.Domain.Playback.{PlaybackRequest, PlaybackSnapshot}

pub record AudioTrack : Type 0 where
  pub id : ℤ
  pub language : String
  pub title : String
  pub is_default : Bool
  pub selected : Bool

pub record AudioDevice : Type 0 where
  pub name : String
  pub description : String
  pub selected : Bool

pub record SubtitleTrackInfo : Type 0 where
  pub id : ℤ
  pub language : String
  pub title : String
  pub is_default : Bool
  pub forced : Bool
  pub selected : Bool
  pub external : Bool

-- `err_closed` is the controller's own error; the player's errors are opaque.
pub data Answer (A : Type 0) : Type 0 where
  ok : A → Answer A
  err_closed : Answer A
  player_error : String → Answer A

-- `domain.Player`, without `Load`, `Stop`, `Events` and `Close`, which are steps of the controller.
pub record Player : Type 1 where
  pub State : Type 0
  pub Float : Type 0
  pub snapshot : State → PlaybackSnapshot
  pub pause : State → Answer (Unit {0}) × State
  pub play : State → Answer (Unit {0}) × State
  pub seek : Duration → State → Answer (Unit {0}) × State
  pub volume : State → Answer ℤ × State
  pub set_volume : ℤ → State → Answer (Unit {0}) × State
  pub gain : State → Answer Float × State
  pub set_gain : Float → State → Answer (Unit {0}) × State
  pub speed : State → Answer Float × State
  pub set_speed : Float → State → Answer (Unit {0}) × State
  pub audio_tracks : State → Answer (List AudioTrack) × State
  pub subtitle_tracks : State → Answer (List SubtitleTrackInfo) × State
  pub set_audio_track : ℤ → State → Answer (Unit {0}) × State
  pub set_subtitle_track : ℤ → State → Answer (Unit {0}) × State
  pub subtitles_enabled : State → Answer Bool × State
  pub set_subtitles_enabled : Bool → State → Answer (Unit {0}) × State
  pub audio_devices : State → Answer (List AudioDevice) × State
  pub set_audio_device : String → State → Answer (Unit {0}) × State
  pub audio_normalization : State → Answer Bool × State
  pub set_audio_normalization : Bool → State → Answer (Unit {0}) × State
  pub audio_channels : State → Answer String × State
  pub set_audio_channels : String → State → Answer (Unit {0}) × State

-- What the commands read of the controller.
pub record View : Type 0 where
  pub closed : Bool
  pub current : PlaybackRequest
  pub resolved_title : String

-- `if c.closed.Load() { return ErrClosed }`: the player is not called.
abbrev pub guarded : {A S : Type 0} → View → (S → Answer A × S) → S → Answer A × S
guarded c call s = if c.closed then (err_closed, s) else call s

module _ (player : Player) where
  open player use {State, Float}

  -- `TogglePause`
  unfoldable pub toggle_pause : View → State → Answer (Unit {0}) × State
  toggle_pause c s =
      guarded c (λ t. if (player.snapshot t).paused then player.play t else player.pause t) s

  -- `Pause`
  unfoldable pub pause : View → State → Answer (Unit {0}) × State
  pause c s = guarded c player.pause s

  -- `Resume`
  unfoldable pub resume : View → State → Answer (Unit {0}) × State
  resume c s = guarded c player.play s

  -- `Seek`
  unfoldable pub seek : View → Duration → State → Answer (Unit {0}) × State
  seek c position s = guarded c (player.seek position) s

  -- `Volume`
  unfoldable pub volume : View → State → Answer ℤ × State
  volume c s = guarded c player.volume s

  -- `SetVolume`
  unfoldable pub set_volume : View → ℤ → State → Answer (Unit {0}) × State
  set_volume c level s = guarded c (player.set_volume level) s

  -- `Gain`
  unfoldable pub gain : View → State → Answer Float × State
  gain c s = guarded c player.gain s

  -- `SetGain`
  unfoldable pub set_gain : View → Float → State → Answer (Unit {0}) × State
  set_gain c decibels s = guarded c (player.set_gain decibels) s

  -- `Speed`
  unfoldable pub speed : View → State → Answer Float × State
  speed c s = guarded c player.speed s

  -- `SetSpeed`
  unfoldable pub set_speed : View → Float → State → Answer (Unit {0}) × State
  set_speed c factor s = guarded c (player.set_speed factor) s

  -- `AudioTracks`
  unfoldable pub audio_tracks : View → State → Answer (List AudioTrack) × State
  audio_tracks c s = guarded c player.audio_tracks s

  -- `SubtitleTracks`
  unfoldable pub subtitle_tracks : View → State → Answer (List SubtitleTrackInfo) × State
  subtitle_tracks c s = guarded c player.subtitle_tracks s

  -- `SetAudioTrack`
  unfoldable pub set_audio_track : View → ℤ → State → Answer (Unit {0}) × State
  set_audio_track c id s = guarded c (player.set_audio_track id) s

  -- `SetSubtitleTrack`
  unfoldable pub set_subtitle_track : View → ℤ → State → Answer (Unit {0}) × State
  set_subtitle_track c id s = guarded c (player.set_subtitle_track id) s

  -- `SubtitlesEnabled`
  unfoldable pub subtitles_enabled : View → State → Answer Bool × State
  subtitles_enabled c s = guarded c player.subtitles_enabled s

  -- `SetSubtitlesEnabled`
  unfoldable pub set_subtitles_enabled : View → Bool → State → Answer (Unit {0}) × State
  set_subtitles_enabled c enabled s = guarded c (player.set_subtitles_enabled enabled) s

  -- `AudioDevices`
  unfoldable pub audio_devices : View → State → Answer (List AudioDevice) × State
  audio_devices c s = guarded c player.audio_devices s

  -- `SetAudioDevice`
  unfoldable pub set_audio_device : View → String → State → Answer (Unit {0}) × State
  set_audio_device c device s = guarded c (player.set_audio_device device) s

  -- `AudioNormalization`
  unfoldable pub audio_normalization : View → State → Answer Bool × State
  audio_normalization c s = guarded c player.audio_normalization s

  -- `SetAudioNormalization`
  unfoldable pub set_audio_normalization : View → Bool → State → Answer (Unit {0}) × State
  set_audio_normalization c enabled s = guarded c (player.set_audio_normalization enabled) s

  -- `AudioChannels`
  unfoldable pub audio_channels : View → State → Answer String × State
  audio_channels c s = guarded c player.audio_channels s

  -- `SetAudioChannels`
  unfoldable pub set_audio_channels : View → String → State → Answer (Unit {0}) × State
  set_audio_channels c layout s = guarded c (player.set_audio_channels layout) s

  -- `Snapshot`: the title of the player, or the one that was resolved.
  unfoldable pub snapshot : View → State → PlaybackSnapshot
  snapshot c s =
      let shot = player.snapshot s in
      if is_empty shot.media_title && not (is_empty c.resolved_title)
      then record shot { media_title = c.resolved_title }
      else shot

-- `Current`: the last request that was loaded, if any.
unfoldable pub current_request : View → Option PlaybackRequest
current_request c =
    if is_empty c.current.source_url && is_empty c.current.video_id then none else some c.current
