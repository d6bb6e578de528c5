-- ===== src/Domain/Video.antt =====
-- internal/domain/models.go and recommendations.go: the video, and a user's progress in one.
use hummtube.Base.{ℤ, pos, ltb_ℤ, leb_ℤ, Bool, ◌&&◌, String, List}
use hummtube.Domain.Vocabulary.{Time, Duration, minutes}

pub record Video : Type 0 where
  pub id : String
  pub channel_id : String
  pub resource_type : String
  pub external_url : String
  pub view_count : ℤ
  pub resource_item_count : ℤ
  pub live_status : String
  pub channel_title : String
  pub title : String
  pub description : String
  pub description_excerpt : String
  pub published_at : Time
  pub duration : Duration
  pub category : String
  pub thumbnail_url : String
  pub first_seen_at : Time
  pub last_seen_at : Time
  pub recommendation_reasons : List String

abbrev pub shorts_max_duration : Duration
shorts_max_duration = minutes 3

-- `Video.IsShort`
unfoldable pub is_short : Video → Bool
is_short v = ltb_ℤ (pos 0) v.duration && leb_ℤ v.duration shorts_max_duration

pub record ProgressInfo : Type 0 where
  pub position : Duration
  pub duration : Duration
  pub updated_at : Time
  pub completed : Bool
