-- ===== src/Search/Local/Wanted.antt =====
-- What a result of the search is asked to be, as each option says it.
use hummtube.Base.{
  inl, inr, Bool-cases, String, pos, ltb_ℤ, str_eq, is_empty, any, All, stable_sort-All, ◌≡◌, true,
  false, List, [], ◌∷◌, keep, arith,
}
use hummtube.Domain.Vocabulary.{
  CaseTable, search_resource_video, is_zero_time, before, search_order_date, minutes,
  search_duration_short, search_duration_medium, search_duration_long, search_event_live,
  search_event_completed, search_event_upcoming, live_now, live_completed, live_upcoming,
  search_watch_any, search_saved_any, search_saved_favorites, search_saved_queue,
  search_saved_not_saved, search_order_view_count, search_order_title, search_watch_unwatched,
  search_watch_watched, search_watch_continue,
}
use hummtube.Domain.Video.{Video, is_short}
use hummtube.Domain.Feed.{live_kind_of}
use hummtube.Domain.Search.{SearchOptions}
use hummtube.Search.Local.{
  PersonalState, matches_local, meaningful, unfinished, wanted_kind, later, more_viewed,
  title_before, sort_results, matches_length, matches_watch, matches_common, matches_event,
  matches_saved, resource_of, contains_resource,
}

module _ (table : CaseTable) where
  -- What the options on the length ask of a video
  abbrev IsLong : SearchOptions → Video → Type 0
  IsLong o v =
      ((o.shorts_only ≡ true → is_short v ≡ true)
        × (o.regular_only ≡ true → (is_short v ≡ false) × (ltb_ℤ (pos 0) v.duration ≡ true))
        × (ltb_ℤ (pos 0) o.min_duration ≡ true → ltb_ℤ v.duration o.min_duration ≡ false)
        × (ltb_ℤ (pos 0) o.max_duration ≡ true → ltb_ℤ o.max_duration v.duration ≡ false))
      × (o.duration ≡ search_duration_short
          → (ltb_ℤ (pos 0) v.duration ≡ true) × (ltb_ℤ v.duration (minutes 4) ≡ true))
      × (o.duration ≡ search_duration_medium
          → (ltb_ℤ v.duration (minutes 4) ≡ false) × (ltb_ℤ (minutes 20) v.duration ≡ false))
      × (o.duration ≡ search_duration_long → ltb_ℤ (minutes 20) v.duration ≡ true)

  -- What the event asks
  abbrev IsAt : SearchOptions → Video → Type 0
  IsAt o v =
      let kind = live_kind_of table v.live_status in
      (o.event_type ≡ search_event_live → str_eq kind live_now ≡ true)
      × (o.event_type ≡ search_event_completed → str_eq kind live_completed ≡ true)
      × (o.event_type ≡ search_event_upcoming → str_eq kind live_upcoming ≡ true)

  -- What the state of watching asks
  abbrev IsWatched : SearchOptions → PersonalState → Video → Type 0
  IsWatched o s v =
      let progress = s.progress v.id in
      (o.watch_state ≡ search_watch_unwatched → meaningful progress ≡ false)
      × (o.watch_state ≡ search_watch_watched → meaningful progress ≡ true)
      × (o.watch_state ≡ search_watch_continue
          → (meaningful progress ≡ true) × (unfinished progress ≡ true))

  -- What the lists ask
  abbrev IsSaved : SearchOptions → PersonalState → Video → Type 0
  IsSaved o s v =
      (o.saved_state ≡ search_saved_favorites → s.favorites v.id ≡ true)
      × (o.saved_state ≡ search_saved_queue → s.queued v.id ≡ true)
      × (o.saved_state ≡ search_saved_not_saved
          → (s.favorites v.id ≡ false) × (s.queued v.id ≡ false))

  matches_length-IsLong : (o : SearchOptions) (v : Video) → matches_length o v ≡ true → IsLong o v
  unfolding matches_length is_short
  matches_length-IsLong o v h = (
    (λ e. ground arith, λ e. (ground arith, ground arith), λ e. ground arith, λ e. ground arith),
    λ e. let h' = rw e at h in (ground arith, ground arith),
    λ e. let h' = rw e at h in (ground arith, ground arith),
    λ e. let h' = rw e at h in ground arith,
  )

  matches_event-IsAt : (o : SearchOptions) (v : Video) → matches_event table o v ≡ true → IsAt o v
  unfolding matches_event wanted_kind
  matches_event-IsAt o v h = (λ e. rw e at h, λ e. rw e at h, λ e. rw e at h)

  matches_watch-IsWatched :
      (o : SearchOptions) (s : PersonalState) (v : Video)
      → matches_watch o s v ≡ true
      → IsWatched o s v
  unfolding matches_watch
  matches_watch-IsWatched o s v h = (
    λ e. let h' = rw e at h in ground arith,
    λ e. rw e at h,
    λ e. let h' = rw e at h in (ground arith, ground arith),
  )

  matches_saved-IsSaved :
      (o : SearchOptions) (s : PersonalState) (v : Video)
      → matches_saved o s v ≡ true
      → IsSaved o s v
  unfolding matches_saved
  matches_saved-IsSaved o s v h =
      (λ e. rw e at h, λ e. rw e at h, λ e. let h' = rw e at h in (ground arith, ground arith))

  -- What each option asks of a result.
  abbrev pub IsWanted : SearchOptions → PersonalState → Video → Type 0
  IsWanted o s v =
      ((o.hide_rejected ≡ true
          → (s.rejected_videos v.id ≡ false) × (s.rejected_channels v.channel_id ≡ false))
        × (o.only_subscribed ≡ true → s.subscribed_channels v.channel_id ≡ true)
        × (is_empty o.channel_id ≡ false → str_eq v.channel_id o.channel_id ≡ true)
        × (any (λ r. str_eq r (resource_of v)) o.resource_types ≡ true)
        × (is_zero_time o.published_after ≡ false → before v.published_at o.published_after ≡ false)
        × (is_zero_time o.published_before ≡ false
            → is_zero_time v.published_at ≡ false
            → before o.published_before v.published_at ≡ false))
      × (str_eq (resource_of v) search_resource_video ≡ false
          → (o.shorts_only ≡ false)
            × (str_eq o.watch_state search_watch_any ≡ true)
            × (str_eq o.saved_state search_saved_any ≡ true))
      × (str_eq (resource_of v) search_resource_video ≡ true
          → IsLong o v × IsAt o v × IsWatched o s v × IsSaved o s v)

  common-wanted :
      (o : SearchOptions) (s : PersonalState) (v : Video)
      → matches_common o s v ≡ true
      → (o.hide_rejected ≡ true
          → (s.rejected_videos v.id ≡ false) × (s.rejected_channels v.channel_id ≡ false))
        × (o.only_subscribed ≡ true → s.subscribed_channels v.channel_id ≡ true)
        × (is_empty o.channel_id ≡ false → str_eq v.channel_id o.channel_id ≡ true)
        × (any (λ r. str_eq r (resource_of v)) o.resource_types ≡ true)
        × (is_zero_time o.published_after ≡ false → before v.published_at o.published_after ≡ false)
        × (is_zero_time o.published_before ≡ false
            → is_zero_time v.published_at ≡ false
            → before o.published_before v.published_at ≡ false)
  unfolding matches_common contains_resource
  common-wanted o s v h = (
    λ e. (ground arith, ground arith),
    λ e. ground arith,
    λ e. ground arith,
    ground arith,
    λ e. ground arith,
    λ e f. ground arith,
  )

  matches_local-IsWanted :
      (o : SearchOptions) (s : PersonalState) (v : Video)
      → matches_local table o s v ≡ true
      → IsWanted o s v
  unfolding matches_local
  matches_local-IsWanted o s v h = (
    common-wanted o s v (ground arith),
    λ e. (ground arith, ground arith, ground arith),
    λ e. (
      matches_length-IsLong o v (ground arith),
      matches_event-IsAt o v (ground arith),
      matches_watch-IsWatched o s v (ground arith),
      matches_saved-IsSaved o s v (ground arith),
    ),
  )

  pub keep-IsWanted :
      (o : SearchOptions) (s : PersonalState) (vs : List Video)
      → All (IsWanted o s) (keep (matches_local table o s) vs)
  keep-IsWanted o s [] = tt
  keep-IsWanted o s (v ∷ vs) = elim (Bool-cases (matches_local table o s v)) [
    | inl y ↦ rw y (matches_local-IsWanted o s v y, keep-IsWanted o s vs)
    | inr n ↦ rw n (keep-IsWanted o s vs)
  ]

  pub sort_results-IsWanted :
      (o : SearchOptions) (s : PersonalState) (order : String) (vs : List Video)
      → All (IsWanted o s) vs
      → All (IsWanted o s) (sort_results table order vs)
  unfolding sort_results
  sort_results-IsWanted o s order vs h = elim (Bool-cases (str_eq order search_order_date)) [
    | inl y ↦ rw y (stable_sort-All later (IsWanted o s) vs h)
    | inr a ↦ rw a (elim (Bool-cases (str_eq order search_order_view_count)) [
      | inl y ↦ rw y (stable_sort-All more_viewed (IsWanted o s) vs h)
      | inr b ↦ rw b (elim (Bool-cases (str_eq order search_order_title)) [
        | inl y ↦ rw y (stable_sort-All (title_before table) (IsWanted o s) vs h)
        | inr c ↦ rw c h
      ])
    ])
  ]
