-- ===== src/Playback/Cascade/Chain.antt =====
-- Which provider of the chain decides, and when the session with cookies is used.
use hummtube.Base.{
  ◌≡◌, refl, true, false, Bool, not, ◌&&◌, String, List, [], ◌∷◌, ◌++◌, Option, none, some, is_some,
  all, arith, ◌∙◌, Bool-cases, inl, inr,
}
use hummtube.Domain.Vocabulary.{Time}
use hummtube.Playback.Selection.{
  ResolveError, stops_provider_fallback, can_try_authenticated_fallback, is_bot_check_error,
  failures_may_benefit,
}
use hummtube.Playback.Cascade.{
  Answer, found, refused, Attempt, Fallback, Errors, provider_error, Outcome, ok, err,
  CascadingResolver, put_error, record_success, record_rate_limit, after_answer, chain,
  rate_limit_active, Instants, resolve_uncached,
}

-- The provider was asked and failed, and its failure leaves the chain open.
abbrev passes_on_answer : Answer → Bool
passes_on_answer (found plan) = false
passes_on_answer (refused e) =
    not (stops_provider_fallback e) && not (can_try_authenticated_fallback e)

abbrev pub passes_on : Attempt → Bool
passes_on a = not a.context_done && passes_on_answer a.answer

-- What the chain comes to once the provider `a` is asked with the errors `errs` behind it: its
-- plan, or its own error where that ends the chain.
abbrev pub decided : Time → String → Answer → CascadingResolver → Outcome × CascadingResolver
decided now name (found plan) c = (ok plan, record_success name c)
decided now name (refused e) c = (err (provider_error e), record_rate_limit now e c)

-- The provider gives a plan, or an error that stops the chain and that no session could help.
abbrev pub decides : Option Fallback → Answer → Bool
decides fallback (found plan) = true
decides fallback (refused e) =
    stops_provider_fallback e && not (can_try_authenticated_fallback e && is_some fallback)

-- A provider that is asked while the context is open.
abbrev pub asked : String → Answer → Attempt
asked n x = record { name = n; context_done = false; answer = x }

after_answer_passed :
    (now : Time) (fallback : Option Fallback) (name : String) (errs : Errors)
    (c : CascadingResolver) (rest : Errors → Outcome × CascadingResolver) (x : Answer)
    → passes_on_answer x ≡ true
    → (later : Errors) × (after_answer now fallback name errs c rest x ≡ rest later)
unfolding after_answer
after_answer_passed now fallback name errs c rest (found plan) h = absurd (cc)
after_answer_passed now none name errs c rest (refused e) h = (put_error name e errs, ground arith)
after_answer_passed now (some f) name errs c rest (refused e) h =
    (put_error name e errs, ground arith)

chain_passed :
    (now : Time) (fallback : Option Fallback) (a : Attempt) (attempts : List Attempt)
    (errs : Errors) (c : CascadingResolver)
    → passes_on a ≡ true
    → (later : Errors) × (chain now fallback (a ∷ attempts) errs c
        ≡ chain now fallback attempts later c)
unfolding chain
chain_passed now fallback a attempts errs c h =
    let asked_now : a.context_done ≡ false = ground arith in
    let (later, e) =
      after_answer_passed now fallback a.name errs c (λ later. chain now fallback attempts later c)
        a.answer (ground arith) in
    (later, rw asked_now e)

chain-asked :
    (now : Time) (fallback : Option Fallback) (name : String) (answer : Answer)
    (attempts : List Attempt) (errs : Errors) (c : CascadingResolver)
    → decides fallback answer ≡ true
    → chain now fallback (asked name answer ∷ attempts) errs c ≡ decided now name answer c
unfolding chain
chain-asked now fallback name (found plan) attempts errs c d = refl
chain-asked now none name (refused e) attempts errs c d = ground arith
chain-asked now (some f) name (refused e) attempts errs c d = ground arith

chain-decided :
    (now : Time) (fallback : Option Fallback) (earlier : List Attempt) (name : String)
    (answer : Answer) (attempts : List Attempt) (errs : Errors) (c : CascadingResolver)
    → all passes_on earlier ≡ true
    → decides fallback answer ≡ true
    → chain now fallback (earlier ++ asked name answer ∷ attempts) errs c
      ≡ decided now name answer c
chain-decided now fallback [] name answer attempts errs c p d =
    chain-asked now fallback name answer attempts errs c d
chain-decided now fallback (a ∷ earlier) name answer attempts errs c p d =
    let (later, e) =
      chain_passed now fallback a (earlier ++ asked name answer ∷ attempts) errs c (ground arith) in
    e ∙ chain-decided now fallback earlier name answer attempts later c (ground arith) d

-- While no rate limit is active, the first provider that gives a plan, or an error that ends the
-- chain and that no session with cookies could help, decides the call: its plan is the result and
-- its name is kept, or its error is the result and a rate limit is recorded. The providers after it
-- have no part in it.
pub resolve_uncached-first :
    (t : Instants) (fallback : Option Fallback) (earlier : List Attempt) (name : String)
    (answer : Answer) (attempts : List Attempt) (c : CascadingResolver)
    → rate_limit_active t.checked_limit c ≡ false
    → all passes_on earlier ≡ true
    → decides fallback answer ≡ true
    → resolve_uncached t fallback (earlier ++ asked name answer ∷ attempts) c
      ≡ decided t.failed_at name answer c
unfolding resolve_uncached
resolve_uncached-first t fallback [] name answer attempts c open_now p d =
    rw open_now (chain-decided t.failed_at fallback [] name answer attempts [] c p d)
resolve_uncached-first t fallback (a ∷ earlier) name answer attempts c open_now p d =
    rw open_now (chain-decided t.failed_at fallback (a ∷ earlier) name answer attempts [] c p d)

-- An answer that asks for no session: a plan, or an error that is neither a restriction nor the
-- check for bots.
abbrev asks_no_session_answer : Answer → Bool
asks_no_session_answer (found plan) = true
asks_no_session_answer (refused e) =
    not (can_try_authenticated_fallback e) && not (is_bot_check_error e)

abbrev pub asks_no_session : Attempt → Bool
asks_no_session a = asks_no_session_answer a.answer

failures_may_benefit-put_error :
    (name : String) (e : ResolveError) (errs : Errors)
    → is_bot_check_error e ≡ false
    → failures_may_benefit errs ≡ false
    → failures_may_benefit (put_error name e errs) ≡ false
unfolding failures_may_benefit put_error
failures_may_benefit-put_error name e [] h k = ground arith
failures_may_benefit-put_error name e ((n, f) ∷ errs) h k =
    ground (arith, failures_may_benefit-put_error name e errs)

after_answer_no_session :
    (now : Time) (f : Fallback) (name : String) (errs : Errors) (c : CascadingResolver)
    (rest other : Errors → Outcome × CascadingResolver) (x : Answer)
    → failures_may_benefit errs ≡ false
    → asks_no_session_answer x ≡ true
    → ((later : Errors) → failures_may_benefit later ≡ false → rest later ≡ other later)
    → after_answer now (some f) name errs c rest x ≡ after_answer now none name errs c other x
unfolding after_answer
after_answer_no_session now f name errs c rest other (found plan) h q same = refl
after_answer_no_session now f name errs c rest other (refused e) h q same = ground (
  arith,
  same (put_error name e errs) (failures_may_benefit-put_error name e errs (ground arith) h),
)

chain-no_session :
    (now : Time) (fallback : Fallback) (attempts : List Attempt) (errs : Errors)
    (c : CascadingResolver)
    → failures_may_benefit errs ≡ false
    → all asks_no_session attempts ≡ true
    → chain now (some fallback) attempts errs c ≡ chain now none attempts errs c
unfolding chain
chain-no_session now fallback [] errs c h q = rw h refl
chain-no_session now fallback (a ∷ attempts) errs c h q =
    let same =
      after_answer_no_session now fallback a.name errs c
        (λ later. chain now (some fallback) attempts later c)
        (λ later. chain now none attempts later c) a.answer h (ground arith)
        (λ later k. chain-no_session now fallback attempts later c k (ground arith)) in
    elim (Bool-cases a.context_done) [ inl d ↦ rw d refl | inr n ↦ rw n same ]

-- The session with cookies is used only where a provider asked for one: if no provider answers with
-- a restriction or with the check for bots, the call goes as it would without the fallback.
pub resolve_uncached-no_session :
    (t : Instants) (fallback : Fallback) (attempts : List Attempt) (c : CascadingResolver)
    → all asks_no_session attempts ≡ true
    → resolve_uncached t (some fallback) attempts c ≡ resolve_uncached t none attempts c
unfolding resolve_uncached failures_may_benefit
resolve_uncached-no_session t fallback [] c q = refl
resolve_uncached-no_session t fallback (a ∷ attempts) c q =
    rw (chain-no_session t.failed_at fallback (a ∷ attempts) [] c refl q) refl
