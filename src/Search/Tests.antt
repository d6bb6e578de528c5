-- ===== src/Search/Tests.antt =====
-- The theorems of internal/search at concrete inputs.
use hummtube.Base.{
  refl, true, false, String, List, [], ◌∷◌, Option, none, pos, trim_space, rune_count, map_chars,
}
use hummtube.Domain.Vocabulary.{minutes, CaseTable, to_upper}
use hummtube.Domain.Video.{Video}
use hummtube.Domain.Search.{SearchOptions}
use hummtube.Search.Options.{
  normalize_options, default_to, clamp_results, default_types, is_only, has_video_only_filter,
}
use hummtube.Search.Options.Validate.{
  OptionsError, query, validate_options, has_control, has_duplicate,
}
use hummtube.Search.Options.Validate.Enums.{valid_search_enums}
use hummtube.Search.Options.Validate.Accepted.{IsAccepted, validate_options-none}
use hummtube.Search.Local.{PersonalState}

-- A table for texts without letters that have two cases.
abbrev caseless : CaseTable
caseless = record { lower = λ c. c; upper = λ c. c; fold = λ c. c }

abbrev some_options : SearchOptions
some_options = record {
  query = " go ";
  exact_phrase = "";
  include_terms = "";
  exclude_terms = "";
  max_results = pos 200;
  page_token = "";
  resource_types = [];
  order = "date";
  published_after = pos 0;
  published_before = pos 0;
  duration = "";
  min_duration = pos 0;
  max_duration = pos 0;
  shorts_only = true;
  regular_only = false;
  event_type = "";
  channel_id = "";
  only_subscribed = false;
  caption = "";
  watch_state = "";
  saved_state = "";
  hide_rejected = false;
  definition = "";
  dimension = "";
  license = "";
  embeddable = "";
  syndicated = "";
  paid_promotion = "";
  video_type = "";
  category_id = "";
  topic_id = "";
  relevance_language = "";
  region_code = "";
  safe_search = "";
  location = "";
  location_radius = "";
}

abbrev some_video : Video
some_video = record {
  id = "v";
  channel_id = "c";
  resource_type = "";
  external_url = "";
  view_count = pos 3;
  resource_item_count = pos 0;
  live_status = "";
  channel_title = "";
  title = "t";
  description = "";
  description_excerpt = "";
  published_at = pos 5;
  duration = minutes 2;
  category = "";
  thumbnail_url = "";
  first_seen_at = pos 0;
  last_seen_at = pos 0;
  recommendation_reasons = [];
}

abbrev nothing_known : PersonalState
nothing_known = record {
  progress = λ _. none;
  favorites = λ _. false;
  queued = λ _. false;
  subscribed_channels = λ _. false;
  rejected_videos = λ _. false;
  rejected_channels = λ _. false;
}

abbrev two_videos : List Video
two_videos = some_video ∷ record some_video { id = "w"; published_at = pos 9 } ∷ []

abbrev no_location_error : String → String → Option OptionsError
no_location_error location radius = none

validate_options-none_example : IsAccepted (query ∷ []) (normalize_options caseless some_options)
unfolding validate_options normalize_options default_to clamp_results default_types trim_space
    to_upper map_chars rune_count has_control has_duplicate valid_search_enums has_video_only_filter
    is_only
validate_options-none_example =
    validate_options-none no_location_error (query ∷ []) caseless some_options refl
