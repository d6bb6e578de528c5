-- ===== src/Domain/Feed/Windows.antt =====
-- How the publication windows of a feed filter lie in one another.
use hummtube.Base.{◌≡◌, true, arith, Bool-cases, inl, inr}
use hummtube.Domain.Vocabulary.{
  Time, is_zero_time, feed_age_today, feed_age_yesterday, feed_age_week, feed_age_month,
  feed_age_year,
}
use hummtube.Domain.Video.{Video}
use hummtube.Domain.Feed.{FeedFilter, matches_age}

module _ (f : FeedFilter) (v : Video) (now : Time) where
  -- A video that passes the filter for today passes the one for the week, that one passes the one
  -- for the month, and that one the one for the year.
  pub matches_age-nested :
      (matches_age (record f { age = feed_age_today }) v now ≡ true
        → matches_age (record f { age = feed_age_week }) v now ≡ true)
      × (matches_age (record f { age = feed_age_week }) v now ≡ true
          → matches_age (record f { age = feed_age_month }) v now ≡ true)
      × (matches_age (record f { age = feed_age_month }) v now ≡ true
          → matches_age (record f { age = feed_age_year }) v now ≡ true)
  unfolding matches_age
  matches_age-nested = (λ h. ground arith, λ h. ground arith, λ h. ground arith)

  -- The window "yesterday" restricts nothing: every video passes, whenever it was published.
  pub matches_age-yesterday : f.age ≡ feed_age_yesterday → matches_age f v now ≡ true
  unfolding matches_age
  matches_age-yesterday e = elim (Bool-cases (is_zero_time v.published_at)) [
    | inl z ↦ rw (e, z)
    | inr n ↦ rw (e, n)
  ]
