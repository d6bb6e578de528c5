-- ===== src/Playback/Selection/Choice.antt =====
-- Which failure `selectFinalFailure` picks.
use hummtube.Base.{
  ◌≡◌, refl, ◌⊎◌, inl, inr, ℕ, ◌≤◌, ◌<◌, List, [], ◌∷◌, ◌++◌, Option, none, some, All, arith,
  Bool-cases, leb, some-inj, ap,
}
use hummtube.Playback.Failure.Kind.{Failure}
use hummtube.Playback.Selection.{
  ResolveError, failure_selection_score, select_round, select_from, select_final_failure,
}

-- The failure in an error, if there is one, has at most this score.
abbrev pub ScoresAtMost : ℕ → Option Failure → Type 0
ScoresAtMost n none = Unit
ScoresAtMost n (some f) = failure_selection_score f.kind ≤ n

-- The failure in an error, if there is one, has a lower score.
abbrev pub ScoresBelow : ℕ → Option Failure → Type 0
ScoresBelow n none = Unit
ScoresBelow n (some f) = failure_selection_score f.kind < n

-- `f` is the last of the best: the attempts before it score no more, those after it score less.
pub data IsChoice (f : Failure) : List ResolveError → Type 0 where
  chosen :
      {attempts : List ResolveError} (before : List ResolveError) (e : ResolveError)
      (after : List ResolveError)
      → attempts ≡ before ++ e ∷ after
      → e.failure ≡ some f
      → All (λ x. ScoresAtMost (failure_selection_score f.kind) x.failure) before
      → All (λ x. ScoresBelow (failure_selection_score f.kind) x.failure) after
      → IsChoice f attempts

round_at_most :
    (selected o : Option Failure) (n : ℕ)
    → ScoresAtMost n (select_round selected o)
    → ScoresAtMost n selected × ScoresAtMost n o
unfolding select_round
round_at_most none none n h = (tt, tt)
round_at_most (some g) none n h = (h, tt)
round_at_most none (some k) n h = (tt, h)
round_at_most (some g) (some k) n h = ground arith

round_some :
    (selected o : Option Failure) (f : Failure)
    → select_round selected o ≡ some f
    → ((selected ≡ some f) × ScoresBelow (failure_selection_score f.kind) o)
      ⊎ ((o ≡ some f) × ScoresAtMost (failure_selection_score f.kind) selected)
unfolding select_round
round_some selected none f h = inl (h, tt)
round_some none (some k) f h = inr (h, tt)
round_some (some g) (some k) f h =
    elim (Bool-cases (leb (failure_selection_score g.kind) (failure_selection_score k.kind))) [
      | inl y ↦ let e : k ≡ f = some-inj (rw y at h) in inr (ap some e, rw (← e) (ground arith))
      | inr n ↦ let e : g ≡ f = some-inj (rw n at h) in inl (ap some e, rw (← e) (ground arith))
    ]

-- What is picked from attempts after something was selected before them.
abbrev Picked : Failure → Option Failure → List ResolveError → Type 0
Picked f selected attempts =
    ((selected ≡ some f)
      × All (λ x. ScoresBelow (failure_selection_score f.kind) x.failure) attempts)
    ⊎ (IsChoice f attempts × ScoresAtMost (failure_selection_score f.kind) selected)

picked_later :
    (f : Failure) (e : ResolveError) (attempts : List ResolveError)
    → IsChoice f attempts
    → ScoresAtMost (failure_selection_score f.kind) e.failure
    → IsChoice f (e ∷ attempts)
picked_later f e attempts (chosen before x after split is low lower) h =
    chosen (e ∷ before) x after (ap (λ l. e ∷ l) split) is (h, low) lower

select_from-Picked :
    (selected : Option Failure) (attempts : List ResolveError) (f : Failure)
    → select_from selected attempts ≡ some f
    → Picked f selected attempts
unfolding select_from
select_from-Picked selected [] f h = inl (h, tt)
select_from-Picked selected (e ∷ attempts) f h =
    elim (select_from-Picked (select_round selected e.failure) attempts f h) [
      | inl (now, rest) ↦ elim (round_some selected e.failure f now) [
        | inl (same, low) ↦ inl (same, (low, rest))
        | inr (here, before) ↦ inr (chosen [] e attempts refl here tt rest, before)
      ]
      | inr (later, most) ↦
          let (a, b) = round_at_most selected e.failure (failure_selection_score f.kind) most in
          inr (picked_later f e attempts later b, a)
    ]

round_none :
    (selected o : Option Failure) → select_round selected o ≡ none → (selected ≡ none) × (o ≡ none)
unfolding select_round
round_none selected none h = (h, refl)
round_none none (some k) h = cc
round_none (some g) (some k) h = absurd (ground arith)

select_from-none :
    (selected : Option Failure) (attempts : List ResolveError)
    → select_from selected attempts ≡ none
    → (selected ≡ none) × All (λ x. x.failure ≡ none) attempts
unfolding select_from
select_from-none selected [] h = (h, tt)
select_from-none selected (e ∷ attempts) h =
    let (a, rest) = select_from-none (select_round selected e.failure) attempts h in
    let (b, c) = round_none selected e.failure a in (b, (c, rest))

-- What is shown for these attempts: a choice among them, or nothing, where none was classified.
abbrev pub IsShown : List ResolveError → Option Failure → Type 0
IsShown attempts none = All (λ x. x.failure ≡ none) attempts
IsShown attempts (some f) = IsChoice f attempts

shown :
    (attempts : List ResolveError) (o : Option Failure)
    → select_from none attempts ≡ o
    → IsShown attempts o
shown attempts none h = (select_from-none none attempts h).1
shown attempts (some f) h = elim (select_from-Picked none attempts f h) [
  | inl (no_one, _) ↦ absurd (cc)
  | inr (c, _) ↦ c
]

-- The failure shown is the last of those with the highest score among the attempts; there is none
-- only where no attempt ended with a classified failure.
pub select_final_failure-IsShown :
    (attempts : List ResolveError) → IsShown attempts (select_final_failure attempts)
unfolding select_final_failure
select_final_failure-IsShown attempts = shown attempts (select_from none attempts) refl
