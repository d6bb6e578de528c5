-- ===== src/Playback/Cache/Entries.antt =====
-- What the cache holds and hands out.
use hummtube.Base.{
  ◌≡◌, refl, ◌⊎◌, inl, inr, true, false, ◌||◌, ◌≤◌, ◌<◌, pos, String, [], ◌∷◌, Option, none, some,
  arith, str_eq, str_eq_refl, length, Bool-cases, Option-cases, ◌≢◌, if◌then◌else◌, is_empty,
  trim_space,
}
use hummtube.Domain.Vocabulary.{Time, before, playback_mode_resolved_media}
use hummtube.Domain.Playback.{PlaybackPlan}
use hummtube.Playback.Cache.{
  PlaybackCacheEntry, Cache, find_entry, delete_entry, cached_plan, drop_expired, oldest_key,
  prune_cache, store_plan, playback_plan_cache_deadline, maximum_playback_cache_entries,
}

pub find_entry-delete_entry :
    (key : String) (cache : Cache) → find_entry key (delete_entry key cache) ≡ none
unfolding find_entry delete_entry
find_entry-delete_entry key [] = refl
find_entry-delete_entry key ((k, e) ∷ cache) = ground (arith, find_entry-delete_entry key cache)

length-delete_entry-le :
    (key : String) (cache : Cache) → length (delete_entry key cache) ≤ length cache
unfolding delete_entry
length-delete_entry-le key [] = omega arith
length-delete_entry-le key ((k, e) ∷ cache) = ground (arith, length-delete_entry-le key cache)

-- Deleting a key that is there makes the cache shorter.
length-delete_entry-lt :
    (key : String) (cache : Cache)
    → find_entry key cache ≢ none
    → length (delete_entry key cache) < length cache
unfolding find_entry delete_entry
length-delete_entry-lt key [] h = absurd (h refl)
length-delete_entry-lt key ((k, e) ∷ cache) h =
    ground (arith, length-delete_entry-le key cache, length-delete_entry-lt key cache)

length-drop_expired-le :
    (now : Time) (cache : Cache) → length (drop_expired now cache) ≤ length cache
unfolding drop_expired
length-drop_expired-le now [] = omega arith
length-drop_expired-le now ((k, e) ∷ cache) = ground (arith, length-drop_expired-le now cache)

find_entry-head :
    (k : String) (e : PlaybackCacheEntry) (cache : Cache) → find_entry k ((k, e) ∷ cache) ≡ some e
unfolding find_entry
find_entry-head k e cache = rw (str_eq_refl k) refl

find_entry-tail :
    (q k : String) (e : PlaybackCacheEntry) (cache : Cache)
    → find_entry q cache ≢ none
    → find_entry q ((k, e) ∷ cache) ≢ none
unfolding find_entry
find_entry-tail q k e cache h = elim (Bool-cases (str_eq k q)) [
  | inl y ↦ rw y (λ x. cc)
  | inr n ↦ rw n h
]

-- The loop ends with the key that it began with, or with one of the cache.
oldest_key-found :
    (key : String) (deadline : Time) (cache : Cache)
    → (oldest_key key deadline cache ≡ key)
      ⊎ (find_entry (oldest_key key deadline cache) cache ≢ none)
unfolding oldest_key
oldest_key-found key deadline [] = inl refl
oldest_key-found key deadline ((k, e) ∷ cache) =
    elim (Bool-cases (is_empty key || before e.valid_until deadline)) [
      | inl y ↦ rw y (elim (oldest_key-found k e.valid_until cache) [
        | inl same ↦ inr (rw same (λ x. cc (find_entry-head k e cache)))
        | inr there ↦ inr (find_entry-tail (oldest_key k e.valid_until cache) k e cache there)
      ])
      | inr n ↦ rw n (elim (oldest_key-found key deadline cache) [
        | inl same ↦ inl same
        | inr there ↦ inr (find_entry-tail (oldest_key key deadline cache) k e cache there)
      ])
    ]

-- The key that a full cache gives up is one of its own.
oldest_key-in :
    (k : String) (e : PlaybackCacheEntry) (cache : Cache)
    → find_entry (oldest_key "" (pos 0) ((k, e) ∷ cache)) ((k, e) ∷ cache) ≢ none
unfolding oldest_key
oldest_key-in k e cache = elim (oldest_key-found k e.valid_until cache) [
  | inl same ↦ rw same (λ x. cc (find_entry-head k e cache))
  | inr there ↦ find_entry-tail (oldest_key k e.valid_until cache) k e cache there
]

evicted :
    (cache : Cache)
    → 64 ≤ length cache
    → length (delete_entry (oldest_key "" (pos 0) cache) cache) < length cache
evicted [] h = absurd (omega arith)
evicted ((k, e) ∷ cache) h = length-delete_entry-lt _ ((k, e) ∷ cache) (oldest_key-in k e cache)

-- Pruning leaves room for one more entry.
prune_cache-room :
    (now : Time) (cache : Cache) → length cache ≤ 64 → length (prune_cache now cache) < 64
unfolding prune_cache
prune_cache-room now cache h =
    ground (arith, length-drop_expired-le now cache, evicted (drop_expired now cache))

cached_plan-hit :
    (now : Time) (key : String) (cache : Cache) {e : PlaybackCacheEntry}
    → find_entry key cache ≡ some e
    → (cached_plan now key cache).0 ≡ (if before now e.valid_until then some e.plan else none)
unfolding cached_plan
cached_plan-hit now key cache h = ground arith

pub cached_plan-miss :
    (now : Time) (key : String) (cache : Cache)
    → find_entry key cache ≡ none
    → cached_plan now key cache ≡ (none, delete_entry key cache)
unfolding cached_plan
cached_plan-miss now key cache h = ground arith

module _ (query : String → Option (String → String)) where
  -- Storing a plan never takes the cache past its 64 entries.
  pub store_plan_bounded :
      (now : Time) (key : String) (plan : PlaybackPlan) (cache : Cache)
      → length cache ≤ maximum_playback_cache_entries
      → length (store_plan query now key plan cache) ≤ maximum_playback_cache_entries
  unfolding store_plan
  store_plan_bounded now key plan cache h =
      ground (arith, prune_cache-room now cache, length-delete_entry-le key (prune_cache now cache))

  store_plan-stored :
      (now : Time) (key : String) (plan : PlaybackPlan) (cache : Cache)
      → str_eq plan.mode playback_mode_resolved_media ≡ true
      → is_empty (trim_space plan.primary.url) ≡ false
      → before now (playback_plan_cache_deadline query plan now) ≡ true
      → store_plan query now key plan cache
        ≡ (key, record { plan = plan; valid_until = playback_plan_cache_deadline query plan now })
          ∷ delete_entry key (prune_cache now cache)
  unfolding store_plan
  store_plan-stored now key plan cache resolved addressed ahead = ground arith

  -- A resolved plan with an address, stored while its deadline lies ahead, is what the cache hands
  -- out under its key at every instant before that deadline, and nothing from then on.
  pub cached_plan-store_plan :
      (now later : Time) (key : String) (plan : PlaybackPlan) (cache : Cache)
      → str_eq plan.mode playback_mode_resolved_media ≡ true
      → is_empty (trim_space plan.primary.url) ≡ false
      → before now (playback_plan_cache_deadline query plan now) ≡ true
      → (cached_plan later key (store_plan query now key plan cache)).0
        ≡ (if before later (playback_plan_cache_deadline query plan now) then some plan else none)
  cached_plan-store_plan now later key plan cache resolved addressed ahead =
      rw (store_plan-stored now key plan cache resolved addressed ahead)
        (cached_plan-hit later key _ (find_entry-head key _ _))

-- An entry is handed out only before its deadline, and is the one that the cache holds; a miss
-- leaves no entry under the key.
pub cached_plan_fresh :
    (now : Time) (key : String) (cache : Cache)
    → ((plan : PlaybackPlan)
        → (cached_plan now key cache).0 ≡ some plan
        → (e : PlaybackCacheEntry) × (find_entry key cache ≡ some e)
          × (e.plan ≡ plan)
          × (before now e.valid_until ≡ true)
          × ((cached_plan now key cache).1 ≡ cache))
      × ((cached_plan now key cache).0 ≡ none → find_entry key (cached_plan now key cache).1 ≡ none)
unfolding cached_plan
cached_plan_fresh now key cache = elim (Option-cases (find_entry key cache)) [
  | inl miss ↦ (
    λ plan h. absurd (ground arith),
    λ h. rw (cached_plan-miss now key cache miss) (find_entry-delete_entry key cache),
  )
  | inr (e, hit) ↦ (
    λ plan h. (e, hit, ground arith, ground arith, ground arith),
    λ h. ground (arith, find_entry-delete_entry key cache),
  )
]
