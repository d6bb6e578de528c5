-- ===== src/Playback/Cache.antt =====
-- internal/playback/cache.go: the cache of resolved plans. The Go map is the list of its entries,
-- in whatever order it is ranged over; `now` is what the clock says at the call. `net/url` is a
-- parameter: the query of a URL, or `none` where it does not parse. Plans are values here, so the
-- deep copies of `clonePlaybackPlan` are the plans themselves.
pub mod Deadline
pub mod Entries
use hummtube.Base.{
  ℕ, zero, suc, ◌+◌, ◌-◌, ◌*◌, ◌^◌, ℤ, pos, negsuc, ◌+ℤ◌, ◌-ℤ◌, ltb_ℤ, Bool, true, false, not, ◌&&◌,
  ◌||◌, Char, code, ltb, leb, ◌==◌, String, List, [], ◌∷◌, ◌++◌, map, Option, none, some, str_eq,
  is_empty, trim_space, length, if◌then◌else◌,
}
use Prim.Native.String.{◌++◌ as append}
use hummtube.Domain.Vocabulary.{
  Time, Duration, is_zero_time, before, minutes, seconds, playback_mode_resolved_media,
}
use hummtube.Domain.Playback.{ResolvedStream, PlaybackVariant, PlaybackRequest, PlaybackPlan}

abbrev pub default_playback_cache_ttl : Duration
default_playback_cache_ttl = minutes 2

abbrev pub maximum_playback_cache_ttl : Duration
maximum_playback_cache_ttl = minutes 10

abbrev pub media_expiry_safety_margin : Duration
media_expiry_safety_margin = seconds 90

abbrev pub maximum_playback_cache_entries : ℕ
maximum_playback_cache_entries = 64

pub record PlaybackCacheEntry : Type 0 where
  pub plan : PlaybackPlan
  pub valid_until : Time

abbrev pub Cache : Type 0
Cache = List (String × PlaybackCacheEntry)

-- `playbackRequestKey`: the two texts with the character 0 between them.
unfoldable pub playback_request_key : PlaybackRequest → String
playback_request_key req =
    append (trim_space req.video_id) (append "\0" (trim_space req.source_url))

-- `c.cache[key]`
unfoldable pub find_entry : String → Cache → Option PlaybackCacheEntry
find_entry key [] = none
find_entry key ((k, e) ∷ cache) = if str_eq k key then some e else find_entry key cache

-- `delete(c.cache, key)`
unfoldable pub delete_entry : String → Cache → Cache
delete_entry key [] = []
delete_entry key ((k, e) ∷ cache) =
    let rest = delete_entry key cache in if str_eq k key then rest else (k, e) ∷ rest

abbrev pub is_live_entry : Time → PlaybackCacheEntry → Bool
is_live_entry now e = before now e.valid_until

-- `cachedPlan`
unfoldable pub cached_plan : Time → String → Cache → Option PlaybackPlan × Cache
unfolding find_entry delete_entry
cached_plan now key cache = elim (find_entry key cache) [
  | none ↦ (none, delete_entry key cache)
  | some e ↦ if is_live_entry now e then (some e.plan, cache) else (none, delete_entry key cache)
]

-- The first loop of `pruneCacheLocked`.
unfoldable pub drop_expired : Time → Cache → Cache
drop_expired now [] = []
drop_expired now ((k, e) ∷ cache) =
    let rest = drop_expired now cache in if is_live_entry now e then (k, e) ∷ rest else rest

-- The second loop: the key with the earliest deadline, the first such in the order of the range.
-- A key is never empty, since it has the character 0 inside.
unfoldable pub oldest_key : String → Time → Cache → String
oldest_key key deadline [] = key
oldest_key key deadline ((k, e) ∷ cache) =
    let better = is_empty key || before e.valid_until deadline in
    oldest_key (if better then k else key) (if better then e.valid_until else deadline) cache

-- `pruneCacheLocked`
unfoldable pub prune_cache : Time → Cache → Cache
unfolding drop_expired oldest_key delete_entry
prune_cache now cache =
    let live = drop_expired now cache in
    if ltb (length live) maximum_playback_cache_entries
    then live
    else delete_entry (oldest_key "" (pos 0) live) live

abbrev url_of : Option ResolvedStream → List String
url_of none = []
url_of (some s) = s.url ∷ []

-- `playbackPlanURLs`
unfoldable pub playback_plan_urls : PlaybackPlan → List String
playback_plan_urls plan =
    plan.primary.url
    ∷ (url_of plan.audio ++ (url_of plan.audio_only ++ map (λ v. v.stream.url) plan.variants))

-- The digits of a decimal number, all of them; `none` at any other character.
digits_from : ℕ → String → Option ℕ
digits_from acc String.[] = some acc
digits_from acc (String.◌∷◌ c s) =
    let rest = digits_from (acc * 10 + (code c - b'0')) s in
    if leb b'0' (code c) && leb (code c) b'9' then rest else none

digits_of : String → Option ℕ
digits_of String.[] = none
digits_of (String.◌∷◌ c s) = digits_from 0 (String.◌∷◌ c s)

-- A magnitude as a signed 64-bit number, out of range an error.
abbrev in_int64 : Bool → Option ℕ → Option ℤ
in_int64 negative none = none
in_int64 true (some n) = if leb n (2 ^ 63) then some (pos 0 -ℤ pos n) else none
in_int64 false (some n) = if ltb n (2 ^ 63) then some (pos n) else none

-- `strconv.ParseInt(s, 10, 64)`
unfoldable pub parse_int : String → Option ℤ
unfolding digits_from digits_of ◌-ℤ◌
parse_int String.[] = none
parse_int (String.◌∷◌ c s) =
    if code c == b'-'
    then in_int64 true (digits_of s)
    else if code c == b'+'
    then in_int64 false (digits_of s)
    else in_int64 false (digits_of (String.◌∷◌ c s))

-- `time.Unix(n, 0)`, in nanoseconds from the zero time, which is the year 1; the seconds from there
-- are an int64 and wrap.
abbrev pub unix : ℕ → Time
unix n =
    let from_year_1 = n + 62_135_596_800 in
    if ltb from_year_1 (2 ^ 63)
    then pos (from_year_1 * 1_000_000_000)
    else negsuc ((2 ^ 64 - from_year_1) * 1_000_000_000 - 1)

abbrev expiry_of : Option ℤ → Time
expiry_of none = pos 0
expiry_of (some (negsuc n)) = pos 0
expiry_of (some (pos n)) = if n == 0 then pos 0 else unix n

-- One round of the loop of `playbackPlanCacheDeadline`.
unfoldable pub earlier : Time → Time → Time
earlier expires candidate =
    if is_zero_time candidate || (not (is_zero_time expires) && not (before candidate expires))
    then expires
    else candidate

module _ (query : String → Option (String → String)) where
  -- `mediaURLExpiry`
  unfoldable pub media_url_expiry : String → Time
  unfolding parse_int
  media_url_expiry raw = elim (query raw) [
    | none ↦ pos 0
    | some get ↦
        expiry_of (parse_int (if is_empty (get "expire") then get "expires" else get "expire"))
  ]

  -- The loop of `playbackPlanCacheDeadline`: the earliest instant that is known.
  unfoldable pub earliest_expiry : Time → List String → Time
  earliest_expiry expires [] = expires
  earliest_expiry expires (u ∷ urls) = earliest_expiry (earlier expires (media_url_expiry u)) urls

  -- `playbackPlanCacheDeadline`
  unfoldable pub playback_plan_cache_deadline : PlaybackPlan → Time → Time
  unfolding playback_plan_urls
  playback_plan_cache_deadline plan now =
      let known = earliest_expiry plan.expires_at (playback_plan_urls plan) in
      let expires = if is_zero_time known then now +ℤ default_playback_cache_ttl else known in
      let deadline = expires -ℤ media_expiry_safety_margin in
      let maximum = now +ℤ maximum_playback_cache_ttl in
      if before maximum deadline then maximum else deadline

  -- `storePlan`; a write replaces the entry of the key.
  unfoldable pub store_plan : Time → String → PlaybackPlan → Cache → Cache
  unfolding delete_entry prune_cache
  store_plan now key plan cache =
      let valid_until = playback_plan_cache_deadline plan now in
      if not (str_eq plan.mode playback_mode_resolved_media)
        || is_empty (trim_space plan.primary.url)
      then cache
      else if not (before now valid_until)
      then cache
      else (key, record { plan = plan; valid_until = valid_until })
        ∷ delete_entry key (prune_cache now cache)
