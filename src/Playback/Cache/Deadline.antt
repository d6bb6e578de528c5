-- ===== src/Playback/Cache/Deadline.antt =====
-- How long a plan may stay in the cache.
use hummtube.Base.{◌≡◌, false, ◌≤ℤ◌}
use hummtube.Domain.Vocabulary.{Time, is_zero_time}

-- `t` is known and not after `u`, if `u` is known.
abbrev pub NotAfter : Time → Time → Type 0
NotAfter t u = is_zero_time u ≡ false → (is_zero_time t ≡ false) × (t ≤ℤ u)
