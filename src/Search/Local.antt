-- ===== src/Search/Local.antt =====
-- internal/search/options.go: `ApplyLocalFilters`, `matchesLocal` and `sortResults`.
-- A Go map or set of the personal state is the function of its lookups.
pub mod Results
pub mod Wanted
use Prim.Native.String.{compare}
use text.Mathlib.Text.{is_lt}
use hummtube.Base.{
  ℤ, pos, ltb_ℤ, leb_ℤ, ◌-ℤ◌, Bool, true, false, not, ◌&&◌, ◌||◌, String, List, [], ◌∷◌, Option,
  none, some, str_eq, is_empty, any, if◌then◌else◌, stable_sort,
}
use hummtube.Domain.Vocabulary.{
  CaseTable, to_lower, Time, is_zero_time, before, minutes, seconds, live_now, live_completed,
  live_upcoming, search_resource_video, search_order_date, search_order_view_count,
  search_order_title, search_duration_short, search_duration_medium, search_duration_long,
  search_event_any, search_event_live, search_event_completed, search_event_upcoming,
  search_watch_any, search_watch_unwatched, search_watch_watched, search_watch_continue,
  search_saved_any, search_saved_favorites, search_saved_queue, search_saved_not_saved,
}
use hummtube.Domain.Video.{Video, ProgressInfo}
use hummtube.Domain.Feed.{live_kind_of}
use hummtube.Domain.Search.{SearchOptions}
use hummtube.Search.Options.{normalize_options}

pub record PersonalState : Type 0 where
  pub progress : String → Option ProgressInfo
  pub favorites : String → Bool
  pub queued : String → Bool
  pub subscribed_channels : String → Bool
  pub rejected_videos : String → Bool
  pub rejected_channels : String → Bool

-- The type of a result; a catalog row has none and is a video.
unfoldable pub resource_of : Video → String
resource_of v = if is_empty v.resource_type then search_resource_video else v.resource_type

-- `containsResource`
unfoldable pub contains_resource : List String → String → Bool
contains_resource resources want = any (λ r. str_eq r want) resources

-- The checks of `matchesLocal` before those for videos alone.
unfoldable pub matches_common : SearchOptions → PersonalState → Video → Bool
unfolding resource_of contains_resource
matches_common o state v =
    if not (contains_resource o.resource_types (resource_of v))
    then false
    else if not (is_empty o.channel_id) && not (str_eq v.channel_id o.channel_id)
    then false
    else if o.only_subscribed && not (state.subscribed_channels v.channel_id)
    then false
    else if o.hide_rejected && (state.rejected_videos v.id || state.rejected_channels v.channel_id)
    then false
    else if not (is_zero_time o.published_after) && before v.published_at o.published_after
    then false
    else if not (is_zero_time o.published_before)
        && not (is_zero_time v.published_at)
        && before o.published_before v.published_at
    then false
    else true

-- The bounds on the duration and the kinds of length.
unfoldable pub matches_length : SearchOptions → Video → Bool
matches_length o v =
    if ltb_ℤ (pos 0) o.min_duration && ltb_ℤ v.duration o.min_duration
    then false
    else if ltb_ℤ (pos 0) o.max_duration && ltb_ℤ o.max_duration v.duration
    then false
    else if o.shorts_only && (leb_ℤ v.duration (pos 0) || ltb_ℤ (minutes 3) v.duration)
    then false
    else if o.regular_only && (leb_ℤ v.duration (pos 0) || leb_ℤ v.duration (minutes 3))
    then false
    else if str_eq o.duration search_duration_short
    then not (leb_ℤ v.duration (pos 0) || leb_ℤ (minutes 4) v.duration)
    else if str_eq o.duration search_duration_medium
    then not (ltb_ℤ v.duration (minutes 4) || ltb_ℤ (minutes 20) v.duration)
    else if str_eq o.duration search_duration_long
    then not (leb_ℤ v.duration (minutes 20))
    else true

-- `want`: the live kind of an event type; the zero value "" for a type that the map lacks.
unfoldable pub wanted_kind : String → String
wanted_kind event =
    if str_eq event search_event_live
    then live_now
    else if str_eq event search_event_completed
    then live_completed
    else if str_eq event search_event_upcoming
    then live_upcoming
    else ""

unfoldable pub matches_event : CaseTable → SearchOptions → Video → Bool
unfolding wanted_kind
matches_event table o v =
    if not (str_eq o.event_type search_event_any)
    then str_eq (live_kind_of table v.live_status) (wanted_kind o.event_type)
    else true

-- `meaningful`: the video was watched to the end, or for 15 seconds.
unfoldable pub meaningful : Option ProgressInfo → Bool
meaningful none = false
meaningful (some p) = p.completed || leb_ℤ (seconds 15) p.position

-- What is left of the video is worth going on with: more than 30 seconds, of a known duration.
unfoldable pub unfinished : Option ProgressInfo → Bool
unfinished none = false
unfinished (some p) =
    not (p.completed || leb_ℤ p.duration (pos 0) || leb_ℤ (p.duration -ℤ p.position) (seconds 30))

unfoldable pub matches_watch : SearchOptions → PersonalState → Video → Bool
unfolding meaningful unfinished
matches_watch o state v =
    let progress = state.progress v.id in
    if str_eq o.watch_state search_watch_unwatched
    then not (meaningful progress)
    else if str_eq o.watch_state search_watch_watched
    then meaningful progress
    else if str_eq o.watch_state search_watch_continue
    then meaningful progress && unfinished progress
    else true

unfoldable pub matches_saved : SearchOptions → PersonalState → Video → Bool
matches_saved o state v =
    if str_eq o.saved_state search_saved_favorites
    then state.favorites v.id
    else if str_eq o.saved_state search_saved_queue
    then state.queued v.id
    else if str_eq o.saved_state search_saved_not_saved
    then not (state.favorites v.id) && not (state.queued v.id)
    else true

-- `matchesLocal`
unfoldable pub matches_local : CaseTable → SearchOptions → PersonalState → Video → Bool
matches_local table o state v =
    if not (matches_common o state v)
    then false
    else if not (str_eq (resource_of v) search_resource_video)
    then str_eq o.watch_state search_watch_any
      && str_eq o.saved_state search_saved_any
      && not o.shorts_only
    else matches_length o v
      && matches_event table o v
      && matches_watch o state v
      && matches_saved o state v

-- The loop of `ApplyLocalFilters`.
unfoldable pub local_matches : CaseTable → SearchOptions → PersonalState → List Video → List Video
local_matches table o state [] = []
local_matches table o state (v ∷ vs) =
    let rest = local_matches table o state vs in
    if not (matches_local table o state v) then rest else v ∷ rest

-- The orders of `sortResults`.
abbrev pub later : Video → Video → Bool
later a b = before b.published_at a.published_at

abbrev pub more_viewed : Video → Video → Bool
more_viewed a b = ltb_ℤ b.view_count a.view_count

abbrev pub title_before : CaseTable → Video → Video → Bool
title_before table a b = is_lt (compare (to_lower table a.title) (to_lower table b.title))

-- `sortResults`
unfoldable pub sort_results : CaseTable → String → List Video → List Video
unfolding stable_sort
sort_results table order videos =
    if str_eq order search_order_date
    then stable_sort later videos
    else if str_eq order search_order_view_count
    then stable_sort more_viewed videos
    else if str_eq order search_order_title
    then stable_sort (title_before table) videos
    else videos

-- `ApplyLocalFilters`
unfoldable pub apply_local_filters :
    CaseTable → List Video → SearchOptions → PersonalState → List Video
unfolding local_matches
apply_local_filters table videos opts state =
    let o = normalize_options table opts in
    sort_results table o.order (local_matches table o state videos)
