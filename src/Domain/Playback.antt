-- ===== src/Domain/Playback.antt =====
-- internal/domain/ports.go: requests, plans, events and snapshots of playback. A Go map of texts
-- is the list of its entries, a nil pointer is `none`.
use hummtube.Base.{ℕ, ℤ, Bool, String, List, Option}
use hummtube.Domain.Vocabulary.{Time, Duration}

pub record ResolvedStream : Type 0 where
  pub url : String
  pub headers : List (String × String)

pub record PlaybackVariant : Type 0 where
  pub id : String
  pub label : String
  pub height : ℤ
  pub has_audio : Bool
  pub stream : ResolvedStream

pub record SubtitleTrack : Type 0 where
  pub language : String
  pub url : String
  pub format : String

pub record PlaybackMetadata : Type 0 where
  pub video_id : String
  pub title : String
  pub duration : Duration

pub record PlaybackRequest : Type 0 where
  pub source_url : String
  pub video_id : String

pub record PlaybackPlan : Type 0 where
  pub mode : String
  pub load_target : String
  pub options : List (String × String)
  pub primary : ResolvedStream
  pub audio : Option ResolvedStream
  pub audio_only : Option ResolvedStream
  pub variants : List PlaybackVariant
  pub subtitles : List SubtitleTrack
  pub metadata : PlaybackMetadata
  pub expires_at : Time

pub record PlaybackSnapshot : Type 0 where
  pub video_id : String
  pub media_title : String
  pub position : Duration
  pub duration : Duration
  pub paused : Bool
  pub core_idle : Bool
  pub hwdec : String
  pub video_codec : String
  pub audio_codec : String

pub data PlayerEventKind : Type 0 where
  file_loaded load_started eof pause_changed error : PlayerEventKind

-- The error of an event is opaque here: `failed` says whether there is one.
pub record PlayerEvent : Type 0 where
  pub kind : PlayerEventKind
  pub generation : ℕ
  pub request : PlaybackRequest
  pub failed : Bool
  pub paused : Bool
