-- ===== src/Playback/Cascade/Hits.antt =====
-- What the cache saves the next call.
use hummtube.Base.{◌≡◌, String, Option, arith}
use hummtube.Domain.Vocabulary.{Time}
use hummtube.Domain.Playback.{PlaybackPlan}
use hummtube.Playback.Cache.{Cache, store_plan}
use hummtube.Playback.Cascade.{Outcome, ok, err, CascadingResolver, store_outcome}

module _ (query : String → Option (String → String)) where
  stored :
      (now : Time) (key : String) (r : Outcome × CascadingResolver) (plan : PlaybackPlan)
      → (store_outcome query now key r).0 ≡ ok plan
      → (cache : Cache) × ((store_outcome query now key r).1.cache
          ≡ store_plan query now key plan cache)
  stored now key (ok p, c) plan h = (c.cache, ground arith)
  stored now key (err e, c) plan h = absurd (cc)
