-- ===== src/Domain/Search.antt =====
-- internal/domain/search.go: the options of a search.
use hummtube.Base.{ℤ, Bool, String, List}
use hummtube.Domain.Vocabulary.{Time, Duration}

pub record SearchOptions : Type 0 where
  pub query : String
  pub exact_phrase : String
  pub include_terms : String
  pub exclude_terms : String
  pub max_results : ℤ
  pub page_token : String
  pub resource_types : List String
  pub order : String
  pub published_after : Time
  pub published_before : Time
  pub duration : String
  pub min_duration : Duration
  pub max_duration : Duration
  pub shorts_only : Bool
  pub regular_only : Bool
  pub event_type : String
  pub channel_id : String
  pub only_subscribed : Bool
  pub caption : String
  pub watch_state : String
  pub saved_state : String
  pub hide_rejected : Bool
  pub definition : String
  pub dimension : String
  pub license : String
  pub embeddable : String
  pub syndicated : String
  pub paid_promotion : String
  pub video_type : String
  pub category_id : String
  pub topic_id : String
  pub relevance_language : String
  pub region_code : String
  pub safe_search : String
  pub location : String
  pub location_radius : String
