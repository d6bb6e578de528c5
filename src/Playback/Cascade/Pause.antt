-- ===== src/Playback/Cascade/Pause.antt =====
-- The pause after a rate limit.
use hummtube.Base.{
  ◌≡◌, refl, true, false, ◌+ℤ◌, String, List, [], ◌∷◌, Option, none, some, arith, Bool-cases, inl,
  inr, ap, sym, ◌∙◌,
}
use mathlib.Core.Path.{subst}
use hummtube.Domain.Vocabulary.{Time, before, minutes}
use hummtube.Playback.Failure.{describe}
use hummtube.Playback.Failure.Kind.{rate_limited}
use hummtube.Playback.Selection.{ResolveError, is_rate_limit_error}
use hummtube.Playback.Cascade.{
  Answer, found, refused, Attempt, Fallback, Errors, paused, provider_error, Outcome, err,
  CascadingResolver, resolve_authenticated, record_rate_limit, put_error, after_answer, chain,
  no_config, Instants, resolve_uncached, rate_limit_active,
}

-- The state after a call that ended with the error of one provider, not with the end of a context.
abbrev Recorded : Time → ResolveError → CascadingResolver → Outcome × CascadingResolver → Type 0
Recorded now e c out =
    out.0 ≡ err (provider_error e) → e.stopped ≡ false → out.1 ≡ record_rate_limit now e c

resolve_authenticated-Recorded :
    (now : Time) (f : Fallback) (errs : Errors) (c : CascadingResolver) (e : ResolveError)
    → Recorded now e c (resolve_authenticated now f errs c)
unfolding resolve_authenticated
resolve_authenticated-Recorded now f errs c e h open_now = absurd (ground arith)

after_answer-Recorded :
    (now : Time) (fallback : Option Fallback) (name : String) (errs : Errors)
    (c : CascadingResolver) (rest : Errors → Outcome × CascadingResolver) (x : Answer)
    (e : ResolveError)
    → ((later : Errors) → Recorded now e c (rest later))
    → Recorded now e c (after_answer now fallback name errs c rest x)
unfolding after_answer
after_answer-Recorded now fallback name errs c rest (found plan) e r h open_now = absurd (cc)
after_answer-Recorded now none name errs c rest (refused x) e r h open_now =
    ground (arith, r (put_error name x errs))
after_answer-Recorded now (some f) name errs c rest (refused x) e r h open_now = ground (
  arith,
  r (put_error name x errs),
  resolve_authenticated-Recorded now f (put_error name x errs) c e,
)

chain-Recorded :
    (now : Time) (fallback : Option Fallback) (attempts : List Attempt) (errs : Errors)
    (c : CascadingResolver) (e : ResolveError)
    → Recorded now e c (chain now fallback attempts errs c)
unfolding chain
chain-Recorded now none [] errs c e h open_now = absurd (cc)
chain-Recorded now (some f) [] errs c e h open_now =
    ground (arith, resolve_authenticated-Recorded now f errs c e)
chain-Recorded now fallback (a ∷ attempts) errs c e h open_now = ground (
  arith,
  after_answer-Recorded now fallback a.name errs c (λ later. chain now fallback attempts later c)
      a.answer e (λ later. chain-Recorded now fallback attempts later c e),
)

resolve_uncached-Recorded :
    (t : Instants) (fallback : Option Fallback) (attempts : List Attempt) (c : CascadingResolver)
    (e : ResolveError)
    → Recorded t.failed_at e c (resolve_uncached t fallback attempts c)
unfolding resolve_uncached
resolve_uncached-Recorded t fallback [] c e h went = absurd (cc)
resolve_uncached-Recorded t fallback (a ∷ attempts) c e h went =
    elim (Bool-cases (rate_limit_active t.checked_limit c)) [
      | inl y ↦ absurd (ground arith)
      | inr n ↦ rw n (chain-Recorded t.failed_at fallback (a ∷ attempts) [] c e (rw n at h) went)
    ]

limited_until :
    (now : Time) (e : ResolveError) (c : CascadingResolver)
    → is_rate_limit_error e ≡ true
    → (record_rate_limit now e c).rate_limited_until ≡ now +ℤ minutes 1
unfolding record_rate_limit
limited_until now e c h = ground arith

while_paused :
    (t : Instants) (fallback : Option Fallback) (a : Attempt) (attempts : List Attempt)
    (c : CascadingResolver)
    → rate_limit_active t.checked_limit c ≡ true
    → resolve_uncached t fallback (a ∷ attempts) c
      ≡ (err (paused (describe rate_limited no_config)), c)
unfolding resolve_uncached
while_paused t fallback a attempts c h = rw h refl

-- Once a call ended with a provider's rate limit, and not with the end of a context, every call in
-- the minute after it is refused with a rate limit: whatever the providers would answer none of
-- them is asked, and nothing changes.
pub resolve_uncached-paused :
    (t later : Instants) (fallback fallback' : Option Fallback) (attempts : List Attempt)
    (a : Attempt) (attempts' : List Attempt) (c : CascadingResolver) (e : ResolveError)
    → (resolve_uncached t fallback attempts c).0 ≡ err (provider_error e)
    → is_rate_limit_error e ≡ true
    → e.stopped ≡ false
    → before later.checked_limit (t.failed_at +ℤ minutes 1) ≡ true
    → resolve_uncached later fallback' (a ∷ attempts') (resolve_uncached t fallback attempts c).1
      ≡ (err (paused (describe rate_limited no_config)), (resolve_uncached t fallback attempts c).1)
resolve_uncached-paused t later fallback fallback' attempts a attempts' c e h limit went soon =
    let until =
      ap (λ (d : CascadingResolver). d.rate_limited_until)
        (resolve_uncached-Recorded t fallback attempts c e h went)
      ∙ limited_until t.failed_at e c limit in
    while_paused later fallback' a attempts' (resolve_uncached t fallback attempts c).1
      (subst (λ u. before later.checked_limit u ≡ true) (sym until) soon)
