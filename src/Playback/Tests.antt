-- ===== src/Playback/Tests.antt =====
-- The theorems of internal/playback at concrete inputs.
use hummtube.Base.{
  ◌≡◌, refl, true, false, ℕ, suc, String, List, [], ◌∷◌, Option, none, some, pos, arith, length,
  ◌≤◌, ◌+ℤ◌, ◌-ℤ◌, if◌then◌else◌, str_eq, trim_space,
}
use hummtube.Domain.Vocabulary.{Time, before, playback_mode_resolved_media}
use hummtube.Domain.Playback.{PlaybackRequest, PlaybackPlan}
use hummtube.Playback.Controller.{
  State, Action, call_play, lock_play, resolved, take_lock, check, call_stop, lock_stop,
  stop_player, loaded, start_load, call_close, lock_close, signal_close, relay_exit, new, step, run,
  no_request,
}
use hummtube.Playback.Controller.Invariant.{
  Reach, start, next, generation_of, holds, Reach-exclusive,
}
use hummtube.Playback.Controller.Stopping.{stop_is_final}
use hummtube.Playback.Controller.Sends.{ends_in_panic, close_then_send_panics}
use hummtube.Playback.Cache.{
  PlaybackCacheEntry, media_url_expiry, earlier, earliest_expiry, playback_plan_cache_deadline,
  maximum_playback_cache_entries, store_plan, cached_plan, find_entry, unix,
}
use hummtube.Playback.Cache.Entries.{store_plan_bounded, cached_plan-store_plan, cached_plan_fresh}
use hummtube.Playback.Commands.{Player, View, ok}

abbrev some_request : PlaybackRequest
some_request = record { source_url = "https://youtu.be/a"; video_id = "a" }

abbrev some_plan : PlaybackPlan
some_plan = record {
  mode = playback_mode_resolved_media;
  load_target = "";
  options = [];
  primary = record { url = "https://cdn/v"; headers = [] };
  audio = none;
  audio_only = none;
  variants = [];
  subtitles = [];
  metadata = record { video_id = "a"; title = "A"; duration = pos 0 };
  expires_at = pos 0;
}

abbrev or_new : Option State → State
or_new none = new
or_new (some s) = s

-- Thread 1 has a plan for its attempt, and thread 2 is in `Stop`.
abbrev until_stop : List Action
until_stop =
    call_play 1 some_request (pos 0) ∷ lock_play 1 ∷ resolved 1 some_plan ∷ call_stop 2 ∷ []

abbrev before_stop : State
before_stop = or_new (run new until_stop)

abbrev after_lock : State
after_lock = or_new (step before_stop (lock_stop 2))

abbrev with_lock : State
with_lock = or_new (run after_lock (take_lock 2 ∷ []))

abbrev at_end : State
at_end = or_new (run with_lock (stop_player 2 ∷ take_lock 1 ∷ check 1 ∷ []))

before_stop-Reach : Reach before_stop
unfolding run step new
before_stop-Reach =
    next
      (next
        (next (next (start refl) (omega arith) (call_play 1 some_request (pos 0)) refl)
          (omega arith) (lock_play 1) refl)
        (omega arith) (resolved 1 some_plan) refl)
      (omega arith) (call_stop 2) refl

stop_is_final_example :
    (at_end.loads ≡ with_lock.loads) × (at_end.current ≡ no_request) × (at_end.resolved_title ≡ "")
unfolding run step new
stop_is_final_example =
    stop_is_final before_stop 2 (take_lock 2 ∷ []) (stop_player 2 ∷ take_lock 1 ∷ check 1 ∷ [])
      before_stop-Reach (omega arith) refl refl refl refl refl refl

Reach-exclusive_example :
    ((i j : ℕ)
      → holds (before_stop.threads i) ≡ true
      → holds (before_stop.threads j) ≡ true
      → i ≡ j)
    × ((j : ℕ) → before_stop.loader ≡ some j → holds (before_stop.threads j) ≡ true)
    × ((i j g : ℕ)
        → generation_of (before_stop.threads i) ≡ some g
        → generation_of (before_stop.threads j) ≡ some g
        → i ≡ j)
    × ((j g : ℕ) → generation_of (before_stop.threads j) ≡ some g → g ≤ before_stop.play_generation)
    × (before_stop.done_closed ≡ true → before_stop.closed ≡ true)
Reach-exclusive_example = Reach-exclusive before_stop-Reach

-- Thread 1 is past the test of the generation.
abbrev about_to_load : State
about_to_load = or_new (
    run new (
      call_play 1 some_request (pos 0)
      ∷ lock_play 1
      ∷ resolved 1 some_plan
      ∷ take_lock 1
      ∷ check 1
      ∷ []))

abbrev in_load : State
in_load = or_new (step about_to_load (start_load 1 true))

abbrev after_load : State
after_load = or_new (step in_load (loaded 1))

close_then_send_panics_example :
    ends_in_panic (
      run about_to_load
        (call_close 2 ∷ lock_close 2 ∷ signal_close 2 ∷ relay_exit false ∷ start_load 1 true ∷ []))
    ≡ true
unfolding run step new
close_then_send_panics_example =
    close_then_send_panics about_to_load 1 2 1 some_request (pos 0) some_plan refl refl refl refl

-- Every address says that it expires at the second 1700000000.
abbrev some_query : String → Option (String → String)
some_query raw = some (λ name. if str_eq name "expire" then "1700000000" else "")

abbrev some_now : Time
some_now = unix 1_699_999_000

store_plan_bounded_example :
    length (store_plan some_query some_now "a" some_plan []) ≤ maximum_playback_cache_entries
store_plan_bounded_example = store_plan_bounded some_query some_now "a" some_plan [] (omega arith)

abbrev later : Time
later = unix 1_699_999_010

cached_plan-store_plan_example :
    (cached_plan later "a" (store_plan some_query some_now "a" some_plan [])).0 ≡ (
      if before later (playback_plan_cache_deadline some_query some_plan some_now)
      then some some_plan
      else none)
unfolding playback_plan_cache_deadline media_url_expiry earliest_expiry earlier ◌+ℤ◌ ◌-ℤ◌ trim_space
cached_plan-store_plan_example =
    cached_plan-store_plan some_query some_now later "a" some_plan [] refl refl refl

cached_plan_fresh_example :
    ((plan : PlaybackPlan)
      → (cached_plan later "a" (store_plan some_query some_now "a" some_plan [])).0 ≡ some plan
      → (e : PlaybackCacheEntry) × (find_entry "a" (store_plan some_query some_now "a" some_plan [])
          ≡ some e)
        × (e.plan ≡ plan)
        × (before later e.valid_until ≡ true)
        × ((cached_plan later "a" (store_plan some_query some_now "a" some_plan [])).1
            ≡ store_plan some_query some_now "a" some_plan []))
    × ((cached_plan later "a" (store_plan some_query some_now "a" some_plan [])).0 ≡ none
        → find_entry "a" (cached_plan later "a" (store_plan some_query some_now "a" some_plan [])).1
          ≡ none)
cached_plan_fresh_example =
    cached_plan_fresh later "a" (store_plan some_query some_now "a" some_plan [])

-- A player whose state is a number of calls, each of which counts.
abbrev counting : Player
counting = record {
  State = ℕ;
  Float = ℕ;
  snapshot = λ n. record {
    video_id = "";
    media_title = "";
    position = pos 0;
    duration = pos 0;
    paused = false;
    core_idle = false;
    hwdec = "";
    video_codec = "";
    audio_codec = "";
  };
  pause = λ n. (ok tt, suc n);
  play = λ n. (ok tt, suc n);
  seek = λ _ n. (ok tt, suc n);
  volume = λ n. (ok (pos 0), n);
  set_volume = λ _ n. (ok tt, suc n);
  gain = λ n. (ok n, n);
  set_gain = λ _ n. (ok tt, suc n);
  speed = λ n. (ok n, n);
  set_speed = λ _ n. (ok tt, suc n);
  audio_tracks = λ n. (ok [], n);
  subtitle_tracks = λ n. (ok [], n);
  set_audio_track = λ _ n. (ok tt, suc n);
  set_subtitle_track = λ _ n. (ok tt, suc n);
  subtitles_enabled = λ n. (ok true, n);
  set_subtitles_enabled = λ _ n. (ok tt, suc n);
  audio_devices = λ n. (ok [], n);
  set_audio_device = λ _ n. (ok tt, suc n);
  audio_normalization = λ n. (ok true, n);
  set_audio_normalization = λ _ n. (ok tt, suc n);
  audio_channels = λ n. (ok "", n);
  set_audio_channels = λ _ n. (ok tt, suc n);
}

abbrev closed_view : View
closed_view = record { closed = true; current = some_request; resolved_title = "A" }
