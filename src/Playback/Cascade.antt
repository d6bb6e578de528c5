-- ===== src/Playback/Cascade.antt =====
-- internal/playback/cascading.go: the chain of providers behind one cache. A call of `Resolve` is
-- given what its environment answers: the clock at the points where it is read, whether its context
-- is done, and for each provider its answer at its turn. Calls run one after another: the merging
-- of calls in flight (package `singleflight`) is not modelled.
pub mod Chain
pub mod Pause
pub mod Hits
mod Tests
use hummtube.Base.{
  pos, ◌+ℤ◌, Bool, true, false, not, ◌&&◌, String, List, [], ◌∷◌, Option, none, some, is_some,
  str_eq, if◌then◌else◌,
}
use hummtube.Domain.Vocabulary.{Time, before, minutes}
use hummtube.Domain.Playback.{PlaybackRequest, PlaybackPlan}
use hummtube.Playback.Failure.Kind.{Failure, YtdlConfig, rate_limited}
use hummtube.Playback.Failure.{describe}
use hummtube.Playback.Selection.{
  ResolveError, stops_provider_fallback, can_try_authenticated_fallback, failures_may_benefit,
  is_rate_limit_error,
}
use hummtube.Playback.Cache.{Cache, playback_request_key, cached_plan, store_plan}

-- What a provider answers.
pub data Answer : Type 0 where
  found : PlaybackPlan → Answer
  refused : ResolveError → Answer

-- A provider at its turn: `context_done` is `ctx.Err() != nil` before it is asked.
pub record Attempt : Type 0 where
  pub name : String
  pub context_done : Bool
  pub answer : Answer

-- `authenticatedFallback`
pub record Fallback : Type 0 where
  pub name : String
  pub answer : Answer

-- `errs`, the errors by the providers' names
abbrev pub Errors : Type 0
Errors = List (String × ResolveError)

pub data CascadeError : Type 0 where
  no_provider : CascadeError
  -- `ctx.Err()`
  context_ended : CascadeError
  -- no request goes out while the rate limit is active
  paused : Failure → CascadeError
  -- the error of one provider, as it is
  provider_error : ResolveError → CascadeError
  -- `MultiProviderError`
  all_failed : Errors → CascadeError

pub data Outcome : Type 0 where
  ok : PlaybackPlan → Outcome
  err : CascadeError → Outcome

pub record CascadingResolver : Type 0 where
  pub last_used : String
  pub rate_limited_until : Time
  pub cache : Cache

-- `errs[name] = err`
unfoldable pub put_error : String → ResolveError → Errors → Errors
put_error name e [] = (name, e) ∷ []
put_error name e ((n, f) ∷ errs) =
    let rest = put_error name e errs in if str_eq n name then (name, e) ∷ errs else (n, f) ∷ rest

-- `recordSuccess`
abbrev pub record_success : String → CascadingResolver → CascadingResolver
record_success name c = record c { last_used = name }

-- `recordRateLimit`
unfoldable pub record_rate_limit : Time → ResolveError → CascadingResolver → CascadingResolver
record_rate_limit now e c =
    if not (is_rate_limit_error e) then c else record c { rate_limited_until = now +ℤ minutes 1 }

-- `rateLimitActive`
abbrev pub rate_limit_active : Time → CascadingResolver → Bool
rate_limit_active now c = before now c.rate_limited_until

-- `resolveAuthenticated`
unfoldable pub resolve_authenticated :
    Time → Fallback → Errors → CascadingResolver → Outcome × CascadingResolver
unfolding record_rate_limit
resolve_authenticated now fallback errs c = elim fallback.answer [
  | found plan ↦ (ok plan, record_success fallback.name c)
  | refused e ↦
      if e.stopped
      then (err (provider_error e), c)
      else (err (all_failed (put_error fallback.name e errs)), record_rate_limit now e c)
]

-- The fallback, where there is one and the test holds; else the rest.
abbrev pub or_authenticated :
    Bool
    → Time
    → Option Fallback
    → Errors
    → CascadingResolver
    → Outcome × CascadingResolver
    → Outcome × CascadingResolver
or_authenticated test now none errs c rest = rest
or_authenticated test now (some f) errs c rest =
    if test then resolve_authenticated now f errs c else rest

-- What a provider's answer leads to; `rest` is what the loop goes on with.
unfoldable pub after_answer :
    Time
    → Option Fallback
    → String
    → Errors
    → CascadingResolver
    → (Errors → Outcome × CascadingResolver)
    → Answer
    → Outcome × CascadingResolver
unfolding record_rate_limit
after_answer now fallback name errs c rest (found plan) = (ok plan, record_success name c)
after_answer now fallback name errs c rest (refused e) =
    or_authenticated (can_try_authenticated_fallback e) now fallback (put_error name e errs) c (
      if stops_provider_fallback e
      then (err (provider_error e), record_rate_limit now e c)
      else rest (put_error name e errs))

-- The loop of `resolveUncached`, and what follows it.
unfoldable pub chain :
    Time → Option Fallback → List Attempt → Errors → CascadingResolver → Outcome × CascadingResolver
unfolding after_answer
chain now fallback [] errs c =
    or_authenticated (failures_may_benefit errs) now fallback errs c (err (all_failed errs), c)
chain now fallback (a ∷ attempts) errs c =
    if a.context_done
    then (err context_ended, c)
    else after_answer now fallback a.name errs c (λ later. chain now fallback attempts later c)
        a.answer

abbrev pub no_config : YtdlConfig
no_config = record {
  yt_dlp_path = "";
  js_runtime = record { name = ""; path = "" };
  player_client = "";
  pot_provider = "";
  pot_mode = "";
  cookies_from_browser = "";
  cookies_file = "";
  allow_remote_components = false;
  max_height = pos 0;
}

-- The clock where a call reads it: at the two lookups, at the test of the rate limit, where a rate
-- limit is recorded, where a plan is stored.
pub record Instants : Type 0 where
  pub looked_up : Time
  pub looked_again : Time
  pub checked_limit : Time
  pub failed_at : Time
  pub stored_at : Time

-- `resolveUncached`
unfoldable pub resolve_uncached :
    Instants → Option Fallback → List Attempt → CascadingResolver → Outcome × CascadingResolver
unfolding chain
resolve_uncached t fallback [] c = (err no_provider, c)
resolve_uncached t fallback (a ∷ attempts) c =
    if rate_limit_active t.checked_limit c
    then (err (paused (describe rate_limited no_config)), c)
    else chain t.failed_at fallback (a ∷ attempts) [] c

-- What a lookup in the cache leads to: the plan, or the rest.
unfoldable pub after_lookup :
    CascadingResolver
    → Option PlaybackPlan × Cache
    → (CascadingResolver → Outcome × CascadingResolver)
    → Outcome × CascadingResolver
after_lookup c (some plan, cache) rest = (ok plan, record c { cache = cache })
after_lookup c (none, cache) rest = rest (record c { cache = cache })

-- The answer that a caller gets whose context may end while it waits.
abbrev pub waited : Bool → Outcome × CascadingResolver → Outcome × CascadingResolver
waited done_waiting (out, c) = (if done_waiting then err context_ended else out, c)

module _ (query : String → Option (String → String)) where
  -- A plan that was resolved is stored.
  abbrev pub store_outcome :
      Time → String → Outcome × CascadingResolver → Outcome × CascadingResolver
  store_outcome now key (ok plan, c) =
      (ok plan, record c { cache = store_plan query now key plan c.cache })
  store_outcome now key (err e, c) = (err e, c)

  -- The function that `Resolve` hands to `DoChan`.
  unfoldable pub resolve_shared :
      Instants
      → Option Fallback
      → List Attempt
      → String
      → CascadingResolver
      → Outcome × CascadingResolver
  resolve_shared t fallback attempts key c =
      after_lookup c (cached_plan t.looked_again key c.cache)
        (λ d. store_outcome t.stored_at key (resolve_uncached t fallback attempts d))

  -- `Resolve`. `done_before` is `ctx.Err() != nil` at the start, `done_waiting` that the `select`
  -- took the end of the context; the work that was started is done all the same.
  unfoldable pub resolve :
      Instants
      → Bool
      → Bool
      → Option Fallback
      → List Attempt
      → PlaybackRequest
      → CascadingResolver
      → Outcome × CascadingResolver
  resolve t done_before done_waiting fallback attempts req c =
      if done_before
      then (err context_ended, c)
      else after_lookup c (cached_plan t.looked_up (playback_request_key req) c.cache) (λ d.
        waited done_waiting (resolve_shared t fallback attempts (playback_request_key req) d))
