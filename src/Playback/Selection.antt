-- ===== src/Playback/Selection.antt =====
-- internal/playback/explicit_ytdlp.go: what an error of a provider says, and which failure of
-- several attempts the user is shown.
pub mod Choice
use hummtube.Base.{
  ℕ, Bool, true, false, not, ◌||◌, String, List, [], ◌∷◌, Option, none, some, leb, if◌then◌else◌,
}
use hummtube.Playback.Failure.Kind.{
  FailureKind, unknown, bot_check, rate_limited, no_formats, unavailable, js_runtime_missing,
  ejs_missing, pot_provider_missing, pot_generation, visitor_data_missing, drm, restricted,
  cookie_decryption, Failure,
}

-- An error as the code looks at it: the `Failure` that `errors.As` finds in it, if any; whether
-- `errors.Is` finds `context.Canceled` or `context.DeadlineExceeded`; and its text.
pub record ResolveError : Type 0 where
  pub failure : Option Failure
  pub stopped : Bool
  pub text : String

-- `failureSelectionScore`
unfoldable pub failure_selection_score : FailureKind → ℕ
failure_selection_score cookie_decryption = 5
failure_selection_score restricted = 4
failure_selection_score drm = 4
failure_selection_score unavailable = 4
failure_selection_score pot_provider_missing = 3
failure_selection_score pot_generation = 3
failure_selection_score js_runtime_missing = 3
failure_selection_score ejs_missing = 3
failure_selection_score bot_check = 2
failure_selection_score no_formats = 2
failure_selection_score visitor_data_missing = 2
failure_selection_score unknown = 0
failure_selection_score _ = 1

-- `score >= selectedScore`, where nothing selected has the score -1
abbrev at_least : Failure → Option Failure → Bool
at_least f none = true
at_least f (some g) = leb (failure_selection_score g.kind) (failure_selection_score f.kind)

-- One round of the loop of `selectFinalFailure`.
unfoldable pub select_round : Option Failure → Option Failure → Option Failure
select_round selected none = selected
select_round selected (some f) = if at_least f selected then some f else selected

unfoldable pub select_from : Option Failure → List ResolveError → Option Failure
unfolding select_round
select_from selected [] = selected
select_from selected (e ∷ attempts) = select_from (select_round selected e.failure) attempts

-- `selectFinalFailure`: the failure that is selected, or `none` where the errors are joined.
unfoldable pub select_final_failure : List ResolveError → Option Failure
unfolding select_from
select_final_failure attempts = select_from none attempts

-- `canTryNextClient`
abbrev next_client_kind : FailureKind → Bool
next_client_kind no_formats = true
next_client_kind bot_check = true
next_client_kind visitor_data_missing = true
next_client_kind pot_provider_missing = true
next_client_kind pot_generation = true
next_client_kind _ = false

abbrev on_failure : (FailureKind → Bool) → Option Failure → Bool
on_failure p none = false
on_failure p (some f) = p f.kind

unfoldable pub can_try_next_client : ResolveError → Bool
can_try_next_client e = on_failure next_client_kind e.failure

abbrev pub stopping_kind : FailureKind → Bool
stopping_kind restricted = true
stopping_kind drm = true
stopping_kind unavailable = true
stopping_kind rate_limited = true
stopping_kind cookie_decryption = true
stopping_kind _ = false

-- `stopsProviderFallback`
unfoldable pub stops_provider_fallback : ResolveError → Bool
stops_provider_fallback e = on_failure stopping_kind e.failure

abbrev pub is_restricted : FailureKind → Bool
is_restricted restricted = true
is_restricted _ = false

abbrev pub is_bot_check : FailureKind → Bool
is_bot_check bot_check = true
is_bot_check _ = false

abbrev pub is_rate_limited : FailureKind → Bool
is_rate_limited rate_limited = true
is_rate_limited _ = false

-- `canTryAuthenticatedFallback`
unfoldable pub can_try_authenticated_fallback : ResolveError → Bool
can_try_authenticated_fallback e = on_failure is_restricted e.failure

-- The test of the loop of `failuresMayBenefitFromAuthentication`, and the loop.
unfoldable pub is_bot_check_error : ResolveError → Bool
is_bot_check_error e = on_failure is_bot_check e.failure

unfoldable pub failures_may_benefit : List (String × ResolveError) → Bool
failures_may_benefit [] = false
failures_may_benefit ((name, e) ∷ errs) = is_bot_check_error e || failures_may_benefit errs

-- `errors.As(err, &failure) && failure.Kind == FailureRateLimited`
unfoldable pub is_rate_limit_error : ResolveError → Bool
is_rate_limit_error e = on_failure is_rate_limited e.failure
