-- ===== src/Search/Local/Results.antt =====
-- What `ApplyLocalFilters` returns.
use hummtube.Base.{
  String, stable_sort, ◌≡◌, refl, true, false, Bool, List, [], ◌∷◌, keep, arith, stable_sort-perm,
  stable_sort-IsOrdered, IsOrdered, keep-stable_sort, ◌↔◌,
}
use mathlib.Core.List.{Perm}
use mathlib.Core.List.Perm
use hummtube.Domain.Vocabulary.{
  CaseTable, search_order_date, search_watch_unwatched, search_watch_watched, search_watch_continue,
}
use hummtube.Domain.Video.{Video, is_short}
use hummtube.Domain.Search.{SearchOptions}
use hummtube.Search.Options.{normalize_options}
use hummtube.Search.Local.{
  PersonalState, matches_local, local_matches, later, more_viewed, title_before, sort_results,
  apply_local_filters, matches_length, matches_watch,
}

module _ (table : CaseTable) where
  local_matches-keep :
      (o : SearchOptions) (s : PersonalState) (vs : List Video)
      → local_matches table o s vs ≡ keep (matches_local table o s) vs
  unfolding local_matches
  local_matches-keep o s [] = refl
  local_matches-keep o s (v ∷ vs) = ground (arith, local_matches-keep o s vs)

  sort_results-perm : (order : _) (vs : List Video) → Perm (sort_results table order vs) vs
  unfolding sort_results
  sort_results-perm order vs = ground (
    arith,
    stable_sort-perm later vs,
    stable_sort-perm more_viewed vs,
    stable_sort-perm (title_before table) vs,
    Perm.refl vs,
  )

  -- The result holds the videos that match the normalised options and no others, each as often as
  -- it was given: whatever order is asked for, sorting neither drops nor repeats one.
  pub apply_local_filters-perm :
      (vs : List Video) (opts : SearchOptions) (s : PersonalState)
      → Perm
          (apply_local_filters table vs opts s)
          (keep (matches_local table (normalize_options table opts) s) vs)
  unfolding apply_local_filters
  apply_local_filters-perm vs opts s =
      rw (local_matches-keep (normalize_options table opts) s vs) (sort_results-perm _ _)

  later-asym : (a b : Video) → later a b ≡ true → later b a ≡ false
  later-asym a b h = ground arith

  sort_results-date :
      (order : String) (l : List Video)
      → order ≡ search_order_date
      → sort_results table order l ≡ stable_sort later l
  unfolding sort_results
  sort_results-date order l e = rw e

  -- Ordered by date, the results go from the latest to the earliest, and two that were published
  -- at the same instant stay in the order in which they were given.
  pub apply_local_filters-by_date :
      (vs : List Video) (opts : SearchOptions) (s : PersonalState)
      → (normalize_options table opts).order ≡ search_order_date
      → IsOrdered later (apply_local_filters table vs opts s)
        × ((p : Video → Bool)
            → ((a b : Video) → p a ≡ true → p b ≡ true → a.published_at ≡ b.published_at)
            → keep p (apply_local_filters table vs opts s)
              ≡ keep p (keep (matches_local table (normalize_options table opts) s) vs))
  unfolding apply_local_filters
  apply_local_filters-by_date vs opts s e =
      rw
        (
          sort_results-date _ (local_matches table (normalize_options table opts) s vs) e,
          local_matches-keep (normalize_options table opts) s vs,
        )
        (
          stable_sort-IsOrdered later later-asym _,
          λ p same. keep-stable_sort later p (λ a b x y. ground (arith, same a b x y)) _,
        )

-- Asking for shorts gives only shorts, and asking for common videos gives no shorts.
pub matches_length-kinds :
    (o : SearchOptions) (v : Video)
    → matches_length o v ≡ true
    → (o.shorts_only ≡ true → is_short v ≡ true) × (o.regular_only ≡ true → is_short v ≡ false)
unfolding matches_length is_short
matches_length-kinds o v h = (λ e. ground arith, λ e. ground arith)

-- The three states of watching: every video is either watched or unwatched and never both, and
-- one that can be continued is watched.
pub matches_watch-states :
    (o : SearchOptions) (s : PersonalState) (v : Video)
    → ((matches_watch (record o { watch_state = search_watch_watched }) s v ≡ true)
        ↔ (matches_watch (record o { watch_state = search_watch_unwatched }) s v ≡ false))
      × (matches_watch (record o { watch_state = search_watch_continue }) s v ≡ true
          → matches_watch (record o { watch_state = search_watch_watched }) s v ≡ true)
unfolding matches_watch
matches_watch-states o s v = ((λ h. ground arith, λ h. ground arith), λ h. ground arith)
