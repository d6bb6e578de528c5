-- ===== src/Domain/Feed.antt =====
-- internal/domain/feed.go: the live status of a video and the local filter of a feed.
pub mod Filtering
pub mod Windows
use hummtube.Base.{
  pos, ltb_ℤ, ◌-ℤ◌, Bool, true, false, not, ◌&&◌, ◌||◌, String, List, [], ◌∷◌, Option, none, some,
  str_eq, is_empty, trim_space, if◌then◌else◌, ◌*◌, any, ◌++◌,
}
use hummtube.Domain.Vocabulary.{
  Time, Duration, hours, is_zero_time, CaseTable, to_lower, equal_fold, live_unknown, live_now,
  live_upcoming, live_completed, not_live, feed_all, feed_regular, feed_live, feed_age_any,
  feed_age_today, feed_age_week, feed_age_month, feed_age_year,
}
use hummtube.Domain.Video.{Video}

-- `liveStatusAliases[key]`
unfoldable pub live_status_aliases : String → Option String
live_status_aliases key =
    if is_empty key
    then some live_unknown
    else if str_eq key "none" || str_eq key "not_live"
    then some not_live
    else if str_eq key "is_live" || str_eq key "live"
    then some live_now
    else if str_eq key "post_live" || str_eq key "was_live" || str_eq key "completed"
    then some live_completed
    else if str_eq key "is_upcoming" || str_eq key "upcoming"
    then some live_upcoming
    else none

pub record FeedFilter : Type 0 where
  pub content : String
  pub age : String
  pub category : String

abbrev pub value_or : Option String → String → String
value_or none d = d
value_or (some x) d = x

-- `LiveKindOf`
unfoldable pub live_kind_of : CaseTable → String → String
live_kind_of table raw =
    value_or (live_status_aliases (to_lower table (trim_space raw))) live_unknown

-- `Video.IsLive`
unfoldable pub is_live : CaseTable → Video → Bool
is_live table v =
    let kind = live_kind_of table v.live_status in
    str_eq kind live_now || str_eq kind live_upcoming || str_eq kind live_completed

-- `FeedFilter.matchesContent`
unfoldable pub matches_content : CaseTable → FeedFilter → Video → Bool
matches_content table f v =
    if str_eq f.content feed_regular
    then not (is_live table v)
    else if str_eq f.content feed_live
    then is_live table v
    else true

-- How long ago the video was published, at least 0.
abbrev pub since : Time → Video → Duration
since now v = let d = now -ℤ v.published_at in if ltb_ℤ d (pos 0) then pos 0 else d

-- `FeedFilter.matchesAge`
unfoldable pub matches_age : FeedFilter → Video → Time → Bool
matches_age f v now =
    if str_eq f.age feed_age_any || is_zero_time v.published_at
    then true
    else if str_eq f.age feed_age_today
    then ltb_ℤ (since now v) (hours 24)
    else if str_eq f.age feed_age_week
    then ltb_ℤ (since now v) (hours (7 * 24))
    else if str_eq f.age feed_age_month
    then ltb_ℤ (since now v) (hours (30 * 24))
    else if str_eq f.age feed_age_year
    then ltb_ℤ (since now v) (hours (365 * 24))
    else true

-- `FeedFilter.Matches`
unfoldable pub matches : CaseTable → FeedFilter → Video → Time → Bool
matches table f v now =
    if not (matches_content table f v)
    then false
    else if not (matches_age f v now)
    then false
    else if not (is_empty f.category) && not (equal_fold table v.category f.category)
    then false
    else true

-- `FeedFilter.IsZero`
unfoldable pub is_zero : FeedFilter → Bool
is_zero f =
    let content = if is_empty f.content then feed_all else f.content in
    let age = if is_empty f.age then feed_age_any else f.age in
    str_eq content feed_all && str_eq age feed_age_any && is_empty f.category

-- The loop of `ApplyFeedFilter`.
unfoldable pub matching : CaseTable → FeedFilter → Time → List Video → List Video
matching table f now [] = []
matching table f now (v ∷ vs) =
    let rest = matching table f now vs in if matches table f v now then v ∷ rest else rest

-- `ApplyFeedFilter`
unfoldable pub apply_feed_filter : CaseTable → FeedFilter → List Video → Time → List Video
unfolding matching
apply_feed_filter table f videos now = if is_zero f then videos else matching table f now videos

-- The loop of `FeedCategories`; `seen` is the set of the keys met, `out` the names kept.
unfoldable pub collect_categories : CaseTable → List String → List String → List Video → List String
collect_categories table seen out [] = out
collect_categories table seen out (v ∷ vs) =
    let name = trim_space v.category in
    let key = to_lower table name in
    let skip = is_empty name || any (str_eq key) seen in
    collect_categories table (if skip then seen else key ∷ seen)
      (if skip then out else out ++ name ∷ []) vs

-- `FeedCategories`
unfoldable pub feed_categories : CaseTable → List Video → List String
unfolding collect_categories
feed_categories table videos = collect_categories table [] [] videos
