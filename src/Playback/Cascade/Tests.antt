-- ===== src/Playback/Cascade/Tests.antt =====
-- The theorems on failures and on the chain of providers at concrete inputs.
use hummtube.Base.{◌≡◌, refl, false, String, List, [], ◌∷◌, Option, none, some, pos, ◌+ℤ◌}
use hummtube.Domain.Vocabulary.{Time, CaseTable, playback_mode_resolved_media}
use hummtube.Domain.Playback.{PlaybackRequest, PlaybackPlan}
use hummtube.Playback.Failure.Kind.{FailureKind, bot_check, rate_limited, network, drm}
use hummtube.Playback.Failure.{describe}
use hummtube.Playback.Selection.{
  ResolveError, select_final_failure, stops_provider_fallback, can_try_authenticated_fallback,
  is_bot_check_error, is_rate_limit_error,
}
use hummtube.Playback.Selection.Choice.{IsShown, select_final_failure-IsShown}
use hummtube.Playback.Cache.{unix}
use hummtube.Playback.Cascade.{
  found, refused, Fallback, err, paused, CascadingResolver, no_config, Instants, resolve_uncached,
  resolve,
}
use hummtube.Playback.Cascade.Chain.{
  asked, decided, resolve_uncached-first, resolve_uncached-no_session,
}
use hummtube.Playback.Cascade.Pause.{resolve_uncached-paused}

abbrev caseless : CaseTable
caseless = record { lower = λ c. c; upper = λ c. c; fold = λ c. c }

abbrev keep_text : String → String
keep_text s = s

abbrev drop_five : List (String × FailureKind) → List (String × FailureKind)
drop_five (a ∷ b ∷ c ∷ d ∷ e ∷ l) = l
drop_five _ = []

abbrev error_of : FailureKind → ResolveError
error_of k = record {
  failure = some (record { kind = k; summary = ""; hint = ""; detail = "" });
  stopped = false;
  text = "";
}

abbrev some_attempts : List ResolveError
some_attempts = error_of network ∷ error_of bot_check ∷ []

select_final_failure-IsShown_example : IsShown some_attempts (select_final_failure some_attempts)
select_final_failure-IsShown_example = select_final_failure-IsShown some_attempts

abbrev some_request : PlaybackRequest
some_request = record { source_url = "https://youtu.be/a"; video_id = "a" }

abbrev some_plan : PlaybackPlan
some_plan = record {
  mode = playback_mode_resolved_media;
  load_target = "";
  options = [];
  primary = record { url = "https://cdn/v"; headers = [] };
  audio = none;
  audio_only = none;
  variants = [];
  subtitles = [];
  metadata = record { video_id = "a"; title = "A"; duration = pos 0 };
  expires_at = pos 0;
}

abbrev some_query : String → Option (String → String)
some_query raw = none

-- A call in which every reading of the clock gives the same second.
abbrev at_second : Time → Instants
at_second t = record {
  looked_up = t;
  looked_again = t;
  checked_limit = t;
  failed_at = t;
  stored_at = t;
}

abbrev fresh : CascadingResolver
fresh = record { last_used = ""; rate_limited_until = pos 0; cache = [] }

abbrev session : Fallback
session = record { name = "ytdlp_authenticated"; answer = found some_plan }

resolve_uncached-first_example :
    resolve_uncached
      (at_second (unix 1))
      (some session)
      (asked "ytdlp_android" (refused (error_of network))
        ∷ asked "ytdlp_ios" (found some_plan)
        ∷ [])
      fresh
    ≡ decided (unix 1) "ytdlp_ios" (found some_plan) fresh
unfolding stops_provider_fallback can_try_authenticated_fallback
resolve_uncached-first_example =
    resolve_uncached-first (at_second (unix 1)) (some session)
      (asked "ytdlp_android" (refused (error_of network)) ∷ []) "ytdlp_ios" (found some_plan) []
      fresh refl refl refl

resolve_uncached-no_session_example :
    resolve_uncached
      (at_second (unix 1))
      (some session)
      (asked "ytdlp_android" (refused (error_of drm)) ∷ [])
      fresh
    ≡ resolve_uncached
        (at_second (unix 1))
        none
        (asked "ytdlp_android" (refused (error_of drm)) ∷ [])
        fresh
unfolding can_try_authenticated_fallback is_bot_check_error
resolve_uncached-no_session_example =
    resolve_uncached-no_session (at_second (unix 1)) session
      (asked "ytdlp_android" (refused (error_of drm)) ∷ []) fresh refl

abbrev limited : CascadingResolver
limited =
    (resolve_uncached (at_second (unix 1)) none
      (asked "ytdlp_android" (refused (error_of rate_limited)) ∷ []) fresh).1

resolve_uncached-paused_example :
    resolve_uncached
      (at_second (unix 30))
      (some session)
      (asked "ytdlp_ios" (found some_plan) ∷ [])
      limited
    ≡ (err (paused (describe rate_limited no_config)), limited)
unfolding resolve_uncached stops_provider_fallback can_try_authenticated_fallback
    is_rate_limit_error ◌+ℤ◌
resolve_uncached-paused_example =
    resolve_uncached-paused (at_second (unix 1)) (at_second (unix 30)) none (some session)
      (asked "ytdlp_android" (refused (error_of rate_limited)) ∷ [])
      (asked "ytdlp_ios" (found some_plan)) [] fresh (error_of rate_limited) refl refl refl refl

abbrev after_call : CascadingResolver
after_call =
    (resolve some_query (at_second (unix 1)) false false none
      (asked "ytdlp_ios" (found some_plan) ∷ []) some_request fresh).1
