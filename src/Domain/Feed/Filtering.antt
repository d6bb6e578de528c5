-- ===== src/Domain/Feed/Filtering.antt =====
-- `ApplyFeedFilter` against the plain filter, and what `FeedCategories` returns.
use hummtube.Base.{
  ◌≡◌, refl, sym, true, Bool, List, [], ◌∷◌, ◌⊎◌, inl, inr, keep, arith, Bool-cases, default-cases,
  is_empty,
}
use hummtube.Domain.Vocabulary.{Time, CaseTable, is_zero_time, feed_all, feed_age_any}
use hummtube.Domain.Video.{Video}
use hummtube.Domain.Feed.{
  FeedFilter, matches_content, matches_age, matches, is_zero, matching, apply_feed_filter,
}

module _ (table : CaseTable) (f : FeedFilter) where
  content_open :
      (v : Video) → (f.content ≡ "") ⊎ (f.content ≡ feed_all) → matches_content table f v ≡ true
  unfolding matches_content
  content_open v (inl e) = rw e
  content_open v (inr e) = rw e

  age_open :
      (v : Video) (now : Time) → (f.age ≡ "") ⊎ (f.age ≡ feed_age_any) → matches_age f v now ≡ true
  unfolding matches_age
  age_open v now (inl e) = elim (Bool-cases (is_zero_time v.published_at)) [
    | inl z ↦ rw (e, z)
    | inr n ↦ rw (e, n)
  ]
  age_open v now (inr e) = rw e

  zero_parts :
      is_zero f ≡ true
      → ((f.content ≡ "") ⊎ (f.content ≡ feed_all))
        × ((f.age ≡ "") ⊎ (f.age ≡ feed_age_any))
        × (is_empty f.category ≡ true)
  unfolding is_zero
  zero_parts h = ground (arith, default-cases f.content feed_all, default-cases f.age feed_age_any)

  matches_of_is_zero : is_zero f ≡ true → (v : Video) (now : Time) → matches table f v now ≡ true
  unfolding matches
  matches_of_is_zero h v now =
      let (c, a, e) = zero_parts h in rw (content_open v c, age_open v now a, e)

  matching-keep :
      (videos : List Video) (now : Time)
      → matching table f now videos ≡ keep (λ v. matches table f v now) videos
  unfolding matching
  matching-keep [] now = refl
  matching-keep (v ∷ vs) now = rw (matching-keep vs now)

  keep_all : (p : Video → Bool) → ((v : Video) → p v ≡ true) → (vs : List Video) → keep p vs ≡ vs
  keep_all p h [] = refl
  keep_all p h (v ∷ vs) = rw (h v, keep_all p h vs)

  -- The shortcut for an empty filter changes nothing: for every filter the result is the videos
  -- that `Matches` accepts, in the order given.
  pub apply_feed_filter-keep :
      (videos : List Video) (now : Time)
      → apply_feed_filter table f videos now ≡ keep (λ v. matches table f v now) videos
  unfolding apply_feed_filter
  apply_feed_filter-keep videos now = elim (Bool-cases (is_zero f)) [
    | inl z ↦ rw z (sym (keep_all _ (λ v. matches_of_is_zero z v now) videos))
    | inr n ↦ rw n (matching-keep videos now)
  ]
