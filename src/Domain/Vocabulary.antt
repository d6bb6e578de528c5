-- ===== src/Domain/Vocabulary.antt =====
-- The named string types of internal/domain (feed.go, search.go, playlist_filter.go, ports.go,
-- smart_rule.go) and their constants. A Go value of such a type is any string, so each is `String`.
-- Instants and durations are counts of nanoseconds; the zero `time.Time` is 0.
use hummtube.Base.{ℕ, ◌*◌, Bool, String, Char, ℤ, pos, ltb_ℤ, eqb_ℤ, map_chars, str_eq}

abbrev pub Time : Type 0
Time = ℤ

abbrev pub Duration : Type 0
Duration = ℤ

-- `t.IsZero()`
abbrev pub is_zero_time : Time → Bool
is_zero_time t = eqb_ℤ t (pos 0)

-- `t.Before(u)`
abbrev pub before : Time → Time → Bool
before t u = ltb_ℤ t u

abbrev pub seconds : ℕ → Duration
seconds n = pos (n * 1_000_000_000)

abbrev pub minutes : ℕ → Duration
minutes n = pos (n * 60_000_000_000)

abbrev pub hours : ℕ → Duration
hours n = pos (n * 3_600_000_000_000)

-- The tables of package `unicode` that `strings.ToLower`, `ToUpper` and `EqualFold` read, for one
-- character each; `fold` gives one representative of the characters that fold to one another.
pub record CaseTable : Type 0 where
  pub lower : Char → Char
  pub upper : Char → Char
  pub fold : Char → Char

unfoldable pub to_lower : CaseTable → String → String
to_lower table s = map_chars table.lower s

unfoldable pub to_upper : CaseTable → String → String
to_upper table s = map_chars table.upper s

unfoldable pub equal_fold : CaseTable → String → String → Bool
equal_fold table s t = str_eq (map_chars table.fold s) (map_chars table.fold t)

-- LiveKind
abbrev pub live_unknown : String
live_unknown = "unknown"

abbrev pub live_now : String
live_now = "live"

abbrev pub live_upcoming : String
live_upcoming = "upcoming"

abbrev pub live_completed : String
live_completed = "completed"

abbrev pub not_live : String
not_live = "not_live"

-- FeedContent
abbrev pub feed_all : String
feed_all = "all"

abbrev pub feed_regular : String
feed_regular = "regular"

abbrev pub feed_live : String
feed_live = "live"

-- FeedAge
abbrev pub feed_age_any : String
feed_age_any = "any"

abbrev pub feed_age_today : String
feed_age_today = "today"

abbrev pub feed_age_yesterday : String
feed_age_yesterday = "yesterday"

abbrev pub feed_age_week : String
feed_age_week = "week"

abbrev pub feed_age_month : String
feed_age_month = "month"

abbrev pub feed_age_year : String
feed_age_year = "year"

-- SubscriptionWatchState
abbrev pub subscription_watch_any : String
subscription_watch_any = "any"

abbrev pub subscription_watch_watched : String
subscription_watch_watched = "watched"

abbrev pub subscription_watch_unwatched : String
subscription_watch_unwatched = "unwatched"

-- SearchResourceType
abbrev pub search_resource_video : String
search_resource_video = "video"

abbrev pub search_resource_channel : String
search_resource_channel = "channel"

abbrev pub search_resource_playlist : String
search_resource_playlist = "playlist"

-- SearchOrder
abbrev pub search_order_relevance : String
search_order_relevance = "relevance"

abbrev pub search_order_date : String
search_order_date = "date"

abbrev pub search_order_view_count : String
search_order_view_count = "viewCount"

abbrev pub search_order_rating : String
search_order_rating = "rating"

abbrev pub search_order_title : String
search_order_title = "title"

abbrev pub search_order_video_count : String
search_order_video_count = "videoCount"

-- SearchDuration
abbrev pub search_duration_any : String
search_duration_any = "any"

abbrev pub search_duration_short : String
search_duration_short = "short"

abbrev pub search_duration_medium : String
search_duration_medium = "medium"

abbrev pub search_duration_long : String
search_duration_long = "long"

abbrev pub search_duration_custom : String
search_duration_custom = "custom"

-- SearchEventType
abbrev pub search_event_any : String
search_event_any = ""

abbrev pub search_event_live : String
search_event_live = "live"

abbrev pub search_event_completed : String
search_event_completed = "completed"

abbrev pub search_event_upcoming : String
search_event_upcoming = "upcoming"

-- SearchCaption
abbrev pub search_caption_any : String
search_caption_any = "any"

abbrev pub search_caption_closed : String
search_caption_closed = "closedCaption"

abbrev pub search_caption_none : String
search_caption_none = "none"

-- SearchDefinition
abbrev pub search_definition_any : String
search_definition_any = "any"

abbrev pub search_definition_high : String
search_definition_high = "high"

abbrev pub search_definition_standard : String
search_definition_standard = "standard"

-- SearchDimension
abbrev pub search_dimension_any : String
search_dimension_any = "any"

abbrev pub search_dimension_2d : String
search_dimension_2d = "2d"

abbrev pub search_dimension_3d : String
search_dimension_3d = "3d"

-- SearchLicense
abbrev pub search_license_any : String
search_license_any = "any"

abbrev pub search_license_you_tube : String
search_license_you_tube = "youtube"

abbrev pub search_license_creative_common : String
search_license_creative_common = "creativeCommon"

-- SearchVideoType
abbrev pub search_video_any : String
search_video_any = "any"

abbrev pub search_video_movie : String
search_video_movie = "movie"

abbrev pub search_video_episode : String
search_video_episode = "episode"

-- SearchSafe
abbrev pub search_safe_any : String
search_safe_any = "any"

abbrev pub search_safe_moderate : String
search_safe_moderate = "moderate"

abbrev pub search_safe_none : String
search_safe_none = "none"

abbrev pub search_safe_strict : String
search_safe_strict = "strict"

-- SearchTriState
abbrev pub search_any : String
search_any = "any"

abbrev pub search_yes : String
search_yes = "yes"

abbrev pub search_no : String
search_no = "no"

-- SearchWatchState
abbrev pub search_watch_any : String
search_watch_any = "any"

abbrev pub search_watch_unwatched : String
search_watch_unwatched = "unwatched"

abbrev pub search_watch_watched : String
search_watch_watched = "watched"

abbrev pub search_watch_continue : String
search_watch_continue = "continue"

-- SearchSavedState
abbrev pub search_saved_any : String
search_saved_any = "any"

abbrev pub search_saved_favorites : String
search_saved_favorites = "favorites"

abbrev pub search_saved_queue : String
search_saved_queue = "queue"

abbrev pub search_saved_not_saved : String
search_saved_not_saved = "not-saved"

-- PlaylistSortKey
abbrev pub playlist_sort_manual : String
playlist_sort_manual = "manual"

abbrev pub playlist_sort_title : String
playlist_sort_title = "title"

abbrev pub playlist_sort_channel : String
playlist_sort_channel = "channel"

abbrev pub playlist_sort_published : String
playlist_sort_published = "published"

abbrev pub playlist_sort_duration : String
playlist_sort_duration = "duration"

abbrev pub playlist_sort_added : String
playlist_sort_added = "added"

-- PlaybackMode
abbrev pub playback_mode_direct : String
playback_mode_direct = "direct"

abbrev pub playback_mode_mpv_ytdl_hook : String
playback_mode_mpv_ytdl_hook = "mpv-ytdl-hook"

abbrev pub playback_mode_resolved_media : String
playback_mode_resolved_media = "resolved-media"
