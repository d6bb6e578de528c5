-- ===== src/Domain/Playlist.antt =====
-- internal/domain/playlist_filter.go: the combined filter of a playlist's page.
pub mod Counting
use hummtube.Base.{
  pos, leb_ℤ, ℕ, ◌+◌, Bool, not, ◌&&◌, ◌||◌, String, str_eq, is_empty, if◌then◌else◌,
}
use hummtube.Domain.Vocabulary.{
  Duration, search_duration_any, search_duration_custom, feed_age_any, search_watch_any, feed_all,
}

pub record PlaylistFilter : Type 0 where
  pub channel : String
  pub duration : String
  pub min_duration : Duration
  pub max_duration : Duration
  pub age : String
  pub category : String
  pub watched : String
  pub favorite : Bool
  pub content : String
  pub shorts_only : Bool

-- `trimAny`
unfoldable pub trim_any : String → String → String
trim_any s empty_value = if is_empty s || str_eq s empty_value then "" else s

-- No bound on the duration is set.
abbrev pub unbounded : PlaylistFilter → Bool
unbounded f = leb_ℤ f.min_duration (pos 0) && leb_ℤ f.max_duration (pos 0)

-- The duration that `IsZero` looks at: a custom one without bounds counts for none.
unfoldable pub effective_duration : PlaylistFilter → String
effective_duration f =
    if str_eq f.duration search_duration_custom && unbounded f then "" else f.duration

-- `PlaylistFilter.IsZero`
unfoldable pub is_zero : PlaylistFilter → Bool
unfolding effective_duration
is_zero f =
    is_empty f.channel
    && is_empty (trim_any (effective_duration f) search_duration_any)
    && unbounded f
    && is_empty (trim_any f.age feed_age_any)
    && is_empty f.category
    && is_empty (trim_any f.watched search_watch_any)
    && not f.favorite
    && is_empty (trim_any f.content feed_all)
    && not f.shorts_only

-- `if test { n++ }`
abbrev pub one_if : Bool → ℕ
one_if b = if b then 1 else 0

-- `PlaylistFilter.ActiveCount`
unfoldable pub active_count : PlaylistFilter → ℕ
active_count f =
    one_if (not (is_empty f.channel))
    + one_if (not (is_empty (trim_any f.duration search_duration_any)))
    + one_if (not (is_empty (trim_any f.age feed_age_any)))
    + one_if (not (is_empty f.category))
    + one_if (not (is_empty (trim_any f.watched search_watch_any)))
    + one_if f.favorite
    + one_if (not (is_empty (trim_any f.content feed_all)))
    + one_if f.shorts_only

abbrev pub playlist_filter_limit : ℕ
playlist_filter_limit = 200
