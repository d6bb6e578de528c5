-- ===== src/Domain/Playlist/Counting.antt =====
-- `IsZero` against `ActiveCount`.
use hummtube.Base.{◌≡◌, ◌↔◌, true, false, ℤ, pos, ◌≤ℤ◌, arith, str_eq}
use hummtube.Domain.Vocabulary.{search_duration_custom}
use hummtube.Domain.Playlist.{PlaylistFilter, is_zero, active_count, unbounded}

-- The two agree on a filter without bounds of duration and without the custom duration: no filter
-- is active exactly when `ActiveCount` is 0.
pub is_zero-active_count :
    (f : PlaylistFilter)
    → unbounded f ≡ true
    → str_eq f.duration search_duration_custom ≡ false
    → (is_zero f ≡ true) ↔ (active_count f ≡ 0)
unfolding is_zero active_count
is_zero-active_count f u n = (λ h. ground arith, λ h. ground arith)

-- A filter that only bounds the duration from below is active, and `ActiveCount` counts nothing:
-- it is 0 whenever the other dimensions are off, whatever the bounds.
pub active_count-bounds :
    (f : PlaylistFilter)
    → is_zero f ≡ true
    → str_eq f.duration search_duration_custom ≡ false
    → (min max : ℤ) → pos 1 ≤ℤ min
    → (active_count (record f { min_duration = min; max_duration = max }) ≡ 0)
      × (is_zero (record f { min_duration = min; max_duration = max }) ≡ false)
unfolding is_zero active_count
active_count-bounds f z n min max h = (ground arith, ground arith)
