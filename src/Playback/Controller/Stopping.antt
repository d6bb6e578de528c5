-- ===== src/Playback/Controller/Stopping.antt =====
-- `Stop` is final: an attempt that was in flight when it ran neither loads nor shows up later.
use hummtube.Base.{
  ◌≡◌, refl, inl, inr, true, false, Bool, not, ℕ, ◌+◌, ◌^◌, ◌≤◌, ◌<◌, Option, none, some, arith,
  List, [], ◌∷◌, ◌==◌, Bool-cases, Option-cases, some-inj, ==_iff, length, all, sym, ◌∙◌,
}
use mathlib.Core.Path.{subst}
use hummtube.Playback.Controller.{
  Phase, idle, starting, stop_entered, stopping, State, no_request, Action, call_play, lock_play,
  lock_stop, act, step, run, thread_of, clear_current,
}
use hummtube.Playback.Controller.Invariant.{
  holds, generation_of, Inv, HasRoom, act-other, act-generation, step-Inv, Reach, Reach-Inv,
}

-- The start of a new attempt.
abbrev pub is_play : Action → Bool
is_play (lock_play _) = true
is_play _ = false

-- The thread passed the test of the generation and is about to call `Load`.
abbrev pub is_starting : Phase → Bool
is_starting (starting _ _ _ _) = true
is_starting _ = false

abbrev Under : Option ℕ → ℕ → Type 0
Under none n = Unit
Under (some g) n = g < n

-- The attempt of the thread, if it has one, is older than generation `n`.
abbrev pub IsOlder : Phase → ℕ → Type 0
IsOlder p n = Under (generation_of p) n

-- Every attempt in flight is out of date, and nothing is shown as current.
pub record IsSettled (s : State) : Type 0 where
  pub older : (j : ℕ) → IsOlder (s.threads j) s.play_generation
  pub cleared : (s.current ≡ no_request) × (s.resolved_title ≡ "")

act-IsOlder :
    (s : State) (a : Action) (p : Phase) {t : State}
    → act s a p ≡ some t
    → s.threads (thread_of a) ≡ p
    → HasRoom s
    → is_play a ≡ false
    → IsOlder p s.play_generation
    → IsOlder (t.threads (thread_of a)) t.play_generation
unfolding act
act-IsOlder s (call_play i req resume) idle h at room n o = ground arith
act-IsOlder s a p h at room n o = ground arith

act-cleared :
    (s : State) (a : Action) (p : Phase) {t : State}
    → act s a p ≡ some t
    → IsOlder p s.play_generation
    → (s.current ≡ no_request) × (s.resolved_title ≡ "")
    → (t.current ≡ no_request) × (t.resolved_title ≡ "")
unfolding act
act-cleared s (call_play i req resume) idle h o c = ground arith
act-cleared s a p h o c = ground arith

act-loads :
    (s : State) (a : Action) (p : Phase) {t : State}
    → act s a p ≡ some t
    → is_starting p ≡ false
    → t.loads ≡ s.loads
unfolding act
act-loads s (call_play i req resume) idle h n = ground arith
act-loads s a p h n = ground arith

act-unstarted :
    (s : State) (a : Action) (p : Phase) {t : State}
    → act s a p ≡ some t
    → s.threads (thread_of a) ≡ p
    → IsOlder p s.play_generation
    → is_starting p ≡ false
    → is_starting (t.threads (thread_of a)) ≡ false
unfolding act
act-unstarted s (call_play i req resume) idle h at o n = ground arith
act-unstarted s a p h at o n = ground arith

act-generation_step :
    (s : State) (a : Action) (p : Phase) {t : State}
    → act s a p ≡ some t
    → t.play_generation ≤ s.play_generation + 1
unfolding act
act-generation_step s (call_play i req resume) idle h = ground arith
act-generation_step s a p h = ground arith

IsOlder-mono : (p : Phase) {m n : ℕ} → m ≤ n → IsOlder p m → IsOlder p n
IsOlder-mono p h o = elim (Option-cases (generation_of p)) [
  | inl e ↦ rw e tt
  | inr (g, e) ↦ let q : g < _ = rw e at o in rw e (omega arith)
]

module _ {s : State} (room : HasRoom s) (a : Action) (n : is_play a ≡ false) {t : State}
    (h : step s a ≡ some t) where
  step-IsSettled : IsSettled s → IsSettled t
  unfolding step
  step-IsSettled q = record {
    older = λ j. elim (Bool-cases (thread_of a == j)) [
      | inl e ↦
          rw (← (==_iff (thread_of a) j).0 e)
            (act-IsOlder s a _ h refl room n (q.older (thread_of a)))
      | inr d ↦
          rw (act-other s a _ j h d)
            (IsOlder-mono (s.threads j) (act-generation s a _ h room) (q.older j))
    ];
    cleared = act-cleared s a _ h (q.older (thread_of a)) q.cleared;
  }

  step-unstarted :
      IsSettled s
      → ((j : ℕ) → is_starting (s.threads j) ≡ false)
      → (t.loads ≡ s.loads) × ((j : ℕ) → is_starting (t.threads j) ≡ false)
  unfolding step
  step-unstarted q u = (
    act-loads s a _ h (u (thread_of a)),
    λ j. elim (Bool-cases (thread_of a == j)) [
      | inl e ↦
          rw (← (==_iff (thread_of a) j).0 e)
            (act-unstarted s a _ h refl (q.older (thread_of a)) (u (thread_of a)))
      | inr d ↦ rw (act-other s a _ j h d) (u j)
    ],
  )

abbrev no_plays : List Action → Bool
no_plays actions = all (λ a. not (is_play a)) actions

-- A run of `k` steps has room.
abbrev pub RunHasRoom : State → List Action → Type 0
RunHasRoom s actions = s.play_generation + length actions < 2 ^ 64

run-cons :
    (s : State) (a : Action) (rest : List Action) {u : State}
    → run s (a ∷ rest) ≡ some u
    → (t : State) × (step s a ≡ some t) × (run t rest ≡ some u)
unfolding run
run-cons s a rest h = elim (Option-cases (step s a)) [
  | inl e ↦ absurd (ground arith)
  | inr (t, e) ↦ (t, e, ground arith)
]

step-generation :
    (s : State) (a : Action) {t : State}
    → step s a ≡ some t
    → t.play_generation ≤ s.play_generation + 1
unfolding step
step-generation s a h = act-generation_step s a _ h

run-IsSettled :
    (s : State) (actions : List Action) {u : State}
    → IsSettled s
    → no_plays actions ≡ true
    → RunHasRoom s actions
    → run s actions ≡ some u
    → IsSettled u × (((j : ℕ) → is_starting (s.threads j) ≡ false) → u.loads ≡ s.loads)
unfolding run
run-IsSettled s [] {u} q n room h =
    subst (λ v. IsSettled v × (((j : ℕ) → is_starting (s.threads j) ≡ false) → v.loads ≡ s.loads))
      (some-inj h) (q, λ x. refl)
run-IsSettled s (a ∷ rest) {u} q n room h =
    let (t, e, r) = run-cons s a rest h in
    let more = step-generation s a e in
    let keeps = step-IsSettled (omega arith) a (ground arith) e q in
    let (v, loads) = run-IsSettled t rest keeps (ground arith) (omega arith) r in
    (
      v,
      λ x.
          let (same, still) = step-unstarted (omega arith) a (ground arith) e q x in
          loads still ∙ same,
    )

run-generation :
    (s : State) (actions : List Action) {u : State}
    → run s actions ≡ some u
    → u.play_generation ≤ s.play_generation + length actions
unfolding run
run-generation s [] h = ground arith
run-generation s (a ∷ rest) h =
    let (t, e, r) = run-cons s a rest h in
    omega (arith, step-generation s a e, run-generation t rest r)

run-Inv :
    (s : State) (actions : List Action) {u : State}
    → Inv s
    → RunHasRoom s actions
    → run s actions ≡ some u
    → Inv u
unfolding run
run-Inv s [] inv room h = subst Inv (some-inj h) inv
run-Inv s (a ∷ rest) inv room h =
    let (t, e, r) = run-cons s a rest h in
    let more = step-generation s a e in
    run-Inv t rest (step-Inv inv (omega arith) a e) (omega arith) r

act-lock_stop :
    (s : State) (i : ℕ) (p : Phase) {t : State}
    → act s (lock_stop i) p ≡ some t
    → t ≡ clear_current s i
unfolding act
act-lock_stop s i stop_entered h = sym (some-inj h)
act-lock_stop s i p h = absurd (cc)

clear_current-IsSettled : (s : State) (i : ℕ) → Inv s → HasRoom s → IsSettled (clear_current s i)
unfolding clear_current
clear_current-IsSettled s i inv room = record {
  older = λ j. elim (Bool-cases (i == j)) [
    | inl e ↦ rw e tt
    | inr d ↦ rw d (elim (Option-cases (generation_of (s.threads j))) [
      | inl e ↦ rw e tt
      | inr (g, e) ↦ rw e (omega (arith, inv.bounded j g e))
    ])
  ];
  cleared = (refl, refl);
}

starting-holds : (p : Phase) → is_starting p ≡ true → holds p ≡ true
starting-holds (starting _ _ _ _) h = refl
starting-holds idle h = cc
starting-holds p h = absurd (cc)

-- The thread of `Stop` has the lock, so no other is about to load.
stopping-unstarted :
    (s : State) (i : ℕ)
    → Inv s
    → s.threads i ≡ stopping
    → (j : ℕ) → is_starting (s.threads j) ≡ false
stopping-unstarted s i inv e j = elim (Bool-cases (is_starting (s.threads j))) [
  | inl y ↦
      let mine : holds (s.threads i) ≡ true = rw e in
      absurd (cc (e, y, inv.holder j (starting-holds (s.threads j) y), inv.holder i mine))
  | inr n ↦ n
]

-- After the section of `Stop` under `mu`, and until a new attempt starts: once the thread of `Stop`
-- has `loadMu`, where it calls the player's own `Stop`, the player's `Load` is called no more, and
-- no attempt that was in flight becomes the current one or gives its title.
pub stop_is_final :
    (s : State) (i : ℕ) (earlier later : List Action) {t u w : State}
    → Reach s
    → s.play_generation + 1 + length earlier + length later < 2 ^ 64
    → step s (lock_stop i) ≡ some t
    → run t earlier ≡ some u
    → no_plays earlier ≡ true
    → u.threads i ≡ stopping
    → run u later ≡ some w
    → no_plays later ≡ true
    → (w.loads ≡ u.loads) × (w.current ≡ no_request) × (w.resolved_title ≡ "")
unfolding step
stop_is_final s i earlier later {t} {u} r room h first n1 e second n2 =
    let inv = Reach-Inv r in
    let settled : IsSettled t =
      rw (act-lock_stop s i (s.threads i) h) (clear_current-IsSettled s i inv (omega arith)) in
    let inv_t = step-Inv inv (omega arith) (lock_stop i) h in
    let more_t = step-generation s (lock_stop i) h in
    let more_u = run-generation t earlier first in
    let inv_u = run-Inv t earlier inv_t (omega arith) first in
    let (settled_u, _) = run-IsSettled t earlier settled n1 (omega arith) first in
    let (settled_w, kept) = run-IsSettled u later settled_u n2 (omega arith) second in
    (kept (stopping-unstarted u i inv_u e), settled_w.cleared.0, settled_w.cleared.1)
