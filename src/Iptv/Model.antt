-- ===== src/Iptv/Model.antt =====
-- internal/iptv/model.go: the records of a catalogue, and the entry of internal/iptv/m3u.go.
use hummtube.Base.{ℕ, ℤ, Bool, String, List}

-- ContentKind
abbrev pub content_kind_unknown : String
content_kind_unknown = "unknown"

abbrev pub content_kind_tv : String
content_kind_tv = "tv"

abbrev pub content_kind_movie : String
content_kind_movie = "movie"

abbrev pub content_kind_series : String
content_kind_series = "series"

-- ClassificationSource
abbrev pub classification_unknown : String
classification_unknown = "unknown"

abbrev pub classification_attribute : String
classification_attribute = "attribute"

abbrev pub classification_group : String
classification_group = "group"

abbrev pub classification_title : String
classification_title = "title"

pub record EpisodeRef : Type 0 where
  pub season : ℕ
  pub episode : ℕ
  pub has_season : Bool
  pub has_episode : Bool

pub record Item : Type 0 where
  pub id : String
  pub source_id : String
  pub source_name : String
  pub kind : String
  pub classification : String
  pub title : String
  pub raw_title : String
  pub group : String
  pub logo_url : String
  pub stream_url : String
  pub epg_id : String
  pub channel_number : String
  pub language : String
  pub country : String
  pub episode : EpisodeRef

pub record ParseWarning : Type 0 where
  pub line : ℕ
  pub code : String
  pub message : String

pub record Playlist : Type 0 where
  pub items : List Item
  pub warnings : List ParseWarning

pub record ParseOptions : Type 0 where
  pub source_id : String
  pub source_name : String
  pub max_items : ℤ
  pub max_line_bytes : ℤ
  pub batch_size : ℤ

-- `m3uEntry`
pub record M3uEntry : Type 0 where
  pub id : String
  pub name : String
  pub group : String
  pub logo_url : String
  pub channel : String
  pub language : String
  pub country : String
  pub content_type : String
