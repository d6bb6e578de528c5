-- ===== src/Search/Options.antt =====
-- internal/search/options.go: `NormalizeOptions`, `hasVideoOnlyFilter`, `RequiresOfficialAPI`.
pub mod Normal
pub mod Validate
use hummtube.Base.{
  ℤ, pos, ltb_ℤ, leb_ℤ, Bool, true, false, not, ◌&&◌, ◌||◌, String, List, [], ◌∷◌, str_eq, is_empty,
  trim_space, if◌then◌else◌,
}
use hummtube.Domain.Vocabulary.{
  CaseTable, to_upper, search_resource_video, search_resource_channel, search_order_relevance,
  search_order_rating, search_order_video_count, search_duration_any, search_event_any,
  search_caption_any, search_definition_any, search_dimension_any, search_license_any,
  search_video_any, search_safe_any, search_any, search_watch_any, search_saved_any,
}
use hummtube.Domain.Search.{SearchOptions}

abbrev pub max_results_limit : ℤ
max_results_limit = pos 50

-- `if s == "" { s = d }`
unfoldable pub default_to : String → String → String
default_to d s = if is_empty s then d else s

-- What a number of results is held to.
unfoldable pub clamp_results : ℤ → ℤ
clamp_results n =
    if leb_ℤ n (pos 0) then pos 20 else if ltb_ℤ max_results_limit n then max_results_limit else n

-- `if len(types) == 0 { types = {video} }`
unfoldable pub default_types : List String → List String
default_types [] = search_resource_video ∷ []
default_types (t ∷ ts) = t ∷ ts

-- `NormalizeOptions`
unfoldable pub normalize_options : CaseTable → SearchOptions → SearchOptions
normalize_options table o = record o {
  query = trim_space o.query;
  exact_phrase = trim_space o.exact_phrase;
  include_terms = trim_space o.include_terms;
  exclude_terms = trim_space o.exclude_terms;
  channel_id = trim_space o.channel_id;
  category_id = trim_space o.category_id;
  topic_id = trim_space o.topic_id;
  relevance_language = trim_space o.relevance_language;
  region_code = to_upper table (trim_space o.region_code);
  location = trim_space o.location;
  location_radius = trim_space o.location_radius;
  max_results = clamp_results o.max_results;
  resource_types = default_types o.resource_types;
  order = default_to search_order_relevance o.order;
  duration = default_to search_duration_any o.duration;
  caption = default_to search_caption_any o.caption;
  definition = default_to search_definition_any o.definition;
  dimension = default_to search_dimension_any o.dimension;
  license = default_to search_license_any o.license;
  video_type = default_to search_video_any o.video_type;
  safe_search = default_to search_safe_any o.safe_search;
  watch_state = default_to search_watch_any o.watch_state;
  saved_state = default_to search_saved_any o.saved_state;
  embeddable = default_to search_any o.embeddable;
  syndicated = default_to search_any o.syndicated;
  paid_promotion = default_to search_any o.paid_promotion;
}

-- `len(types) == 1 && types[0] == only`
unfoldable pub is_only : String → List String → Bool
is_only only [] = false
is_only only (t ∷ []) = str_eq t only
is_only only (t ∷ u ∷ ts) = false

-- A text that differs from its neutral value.
abbrev pub differs : String → String → Bool
differs s neutral = not (str_eq s neutral)

-- `hasVideoOnlyFilter`
unfoldable pub has_video_only_filter : SearchOptions → Bool
has_video_only_filter o =
    differs o.duration search_duration_any
    || ltb_ℤ (pos 0) o.min_duration
    || ltb_ℤ (pos 0) o.max_duration
    || o.shorts_only
    || o.regular_only
    || differs o.event_type search_event_any
    || differs o.caption search_caption_any
    || differs o.definition search_definition_any
    || differs o.dimension search_dimension_any
    || differs o.license search_license_any
    || differs o.embeddable search_any
    || differs o.syndicated search_any
    || differs o.paid_promotion search_any
    || differs o.video_type search_video_any
    || not (is_empty o.category_id)
    || not (is_empty o.location)
    || differs o.watch_state search_watch_any
    || differs o.saved_state search_saved_any

-- The parameters that only the official API knows.
unfoldable pub has_official_filter : SearchOptions → Bool
has_official_filter o =
    differs o.caption search_caption_any
    || differs o.definition search_definition_any
    || differs o.dimension search_dimension_any
    || differs o.license search_license_any
    || differs o.embeddable search_any
    || differs o.syndicated search_any
    || differs o.paid_promotion search_any
    || differs o.video_type search_video_any
    || not (is_empty o.category_id)
    || not (is_empty o.topic_id)
    || not (is_empty o.relevance_language)
    || not (is_empty o.region_code)
    || differs o.safe_search search_safe_any
    || not (is_empty o.location)
    || not (is_empty o.location_radius)

-- `RequiresOfficialAPI`, on options that are normalised
unfoldable pub requires_official : SearchOptions → Bool
unfolding is_only has_official_filter
requires_official o =
    if not (is_only search_resource_video o.resource_types)
    then true
    else if has_official_filter o
    then true
    else if str_eq o.order search_order_rating || str_eq o.order search_order_video_count
    then true
    else false

-- `RequiresOfficialAPI`
unfoldable pub requires_official_api : CaseTable → SearchOptions → Bool
unfolding requires_official
requires_official_api table o = requires_official (normalize_options table o)
