-- ===== src/Search/Options/Validate/Enums.antt =====
-- internal/search/options.go: `validSearchEnums`, the values of the enumerations.
use hummtube.Base.{Bool, ◌&&◌, String, List, [], ◌∷◌, str_eq, any, all}
use hummtube.Domain.Vocabulary.{
  search_resource_video, search_resource_channel, search_resource_playlist, search_order_relevance,
  search_order_date, search_order_view_count, search_order_rating, search_order_title,
  search_order_video_count, search_duration_any, search_duration_short, search_duration_medium,
  search_duration_long, search_duration_custom, search_event_any, search_event_live,
  search_event_completed, search_event_upcoming, search_caption_any, search_caption_closed,
  search_caption_none, search_definition_any, search_definition_high, search_definition_standard,
  search_dimension_any, search_dimension_2d, search_dimension_3d, search_license_any,
  search_license_you_tube, search_license_creative_common, search_video_any, search_video_movie,
  search_video_episode, search_safe_any, search_safe_moderate, search_safe_none, search_safe_strict,
  search_any, search_yes, search_no, search_watch_any, search_watch_unwatched, search_watch_watched,
  search_watch_continue, search_saved_any, search_saved_favorites, search_saved_queue,
  search_saved_not_saved,
}
use hummtube.Domain.Search.{SearchOptions}

-- `s` is one of the values.
abbrev pub one_of : List String → String → Bool
one_of values s = any (str_eq s) values

abbrev resource_values : List String
resource_values = search_resource_video ∷ search_resource_channel ∷ search_resource_playlist ∷ []

abbrev order_values : List String
order_values =
    search_order_relevance ∷ search_order_date ∷ search_order_view_count ∷ search_order_rating
    ∷ search_order_title ∷ search_order_video_count ∷ []

abbrev duration_values : List String
duration_values =
    search_duration_any ∷ search_duration_short ∷ search_duration_medium ∷ search_duration_long
    ∷ search_duration_custom ∷ []

abbrev event_values : List String
event_values =
    search_event_any ∷ search_event_live ∷ search_event_completed ∷ search_event_upcoming ∷ []

abbrev caption_values : List String
caption_values = search_caption_any ∷ search_caption_closed ∷ search_caption_none ∷ []

abbrev definition_values : List String
definition_values = search_definition_any ∷ search_definition_high ∷ search_definition_standard ∷ []

abbrev dimension_values : List String
dimension_values = search_dimension_any ∷ search_dimension_2d ∷ search_dimension_3d ∷ []

abbrev license_values : List String
license_values = search_license_any ∷ search_license_you_tube ∷ search_license_creative_common ∷ []

abbrev video_type_values : List String
video_type_values = search_video_any ∷ search_video_movie ∷ search_video_episode ∷ []

abbrev safe_values : List String
safe_values = search_safe_any ∷ search_safe_moderate ∷ search_safe_none ∷ search_safe_strict ∷ []

abbrev tri_values : List String
tri_values = search_any ∷ search_yes ∷ search_no ∷ []

abbrev watch_values : List String
watch_values =
    search_watch_any ∷ search_watch_unwatched ∷ search_watch_watched ∷ search_watch_continue ∷ []

abbrev saved_values : List String
saved_values =
    search_saved_any ∷ search_saved_favorites ∷ search_saved_queue ∷ search_saved_not_saved ∷ []

-- `validSearchEnums`
unfoldable pub valid_search_enums : SearchOptions → Bool
valid_search_enums o =
    all (one_of resource_values) o.resource_types
    && one_of order_values o.order
    && one_of duration_values o.duration
    && one_of event_values o.event_type
    && one_of caption_values o.caption
    && one_of definition_values o.definition
    && one_of dimension_values o.dimension
    && one_of license_values o.license
    && one_of video_type_values o.video_type
    && one_of safe_values o.safe_search
    && one_of tri_values o.embeddable
    && one_of tri_values o.syndicated
    && one_of tri_values o.paid_promotion
    && one_of watch_values o.watch_state
    && one_of saved_values o.saved_state
