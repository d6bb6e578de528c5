-- ===== src/Playback/Controller/Invariant.antt =====
-- What holds between two steps: the lock has one holder, and attempts have their own generations.
use hummtube.Base.{
  ◌≡◌, refl, sym, ◌∙◌, true, false, Bool, ℕ, ◌+◌, ◌^◌, ◌≤◌, ◌<◌, Option, none, some, arith, ◌==◌,
  Bool-cases, ==_iff, inl, inr, ◌⊎◌,
}
use hummtube.Playback.Controller.{
  Phase, idle, resolving, unresolved, ready, checking, starting, loading, unloaded, failing,
  stopping, closing, close_marked, close_entered, close_waiting, State, Action, call_play, new, act,
  step, thread_of,
}

-- The thread is between taking and releasing `loadMu`.
abbrev pub holds : Phase → Bool
holds (checking _ _ _ _) = true
holds (starting _ _ _ _) = true
holds (loading _ _ _) = true
holds (unloaded _ _ _ _) = true
holds (failing _ _) = true
holds stopping = true
holds closing = true
holds _ = false

-- The generation of the attempt that the thread works on.
abbrev pub generation_of : Phase → Option ℕ
generation_of (resolving g _ _) = some g
generation_of (unresolved g _) = some g
generation_of (ready g _ _ _) = some g
generation_of (checking g _ _ _) = some g
generation_of (starting g _ _ _) = some g
generation_of (loading g _ _) = some g
generation_of (unloaded g _ _ _) = some g
generation_of (failing g _) = some g
generation_of _ = none

-- The thread is in `Close`, past the swap.
abbrev pub is_closing : Phase → Bool
is_closing close_entered = true
is_closing close_marked = true
is_closing close_waiting = true
is_closing closing = true
is_closing _ = false

pub record Inv (s : State) : Type 0 where
  pub holder : (j : ℕ) → holds (s.threads j) ≡ true → s.loader ≡ some j
  pub held : (j : ℕ) → s.loader ≡ some j → holds (s.threads j) ≡ true
  pub bounded : (j g : ℕ) → generation_of (s.threads j) ≡ some g → g ≤ s.play_generation
  pub distinct :
      (i j g : ℕ)
      → generation_of (s.threads i) ≡ some g
      → generation_of (s.threads j) ≡ some g
      → i ≡ j
  pub closers : (j : ℕ) → is_closing (s.threads j) ≡ true → s.closed ≡ true
  pub done_after : s.done_closed ≡ true → s.closed ≡ true

-- The next generation does not wrap.
abbrev pub HasRoom : State → Type 0
HasRoom s = s.play_generation + 1 < 2 ^ 64

-- A step changes no other thread.
pub act-other :
    (s : State) (a : Action) (p : Phase) (j : ℕ) {t : State}
    → act s a p ≡ some t
    → (thread_of a == j) ≡ false
    → t.threads j ≡ s.threads j
unfolding act
act-other s (call_play i req resume) idle j h n = ground arith
act-other s a p j h n = ground arith

-- The lock is taken only when it is free, and released only by its holder.
act-holder :
    (s : State) (a : Action) (p : Phase) (j : ℕ) {t : State}
    → act s a p ≡ some t
    → s.threads (thread_of a) ≡ p
    → (holds p ≡ true → s.loader ≡ some (thread_of a))
    → (holds (s.threads j) ≡ true → s.loader ≡ some j)
    → holds (t.threads j) ≡ true
    → t.loader ≡ some j
unfolding act
act-holder s (call_play i req resume) idle j h at own other k = ground arith
act-holder s a p j h at own other k = ground arith

act-held :
    (s : State) (a : Action) (p : Phase) (j : ℕ) {t : State}
    → act s a p ≡ some t
    → s.threads (thread_of a) ≡ p
    → (holds p ≡ true → s.loader ≡ some (thread_of a))
    → (s.loader ≡ some j → holds (s.threads j) ≡ true)
    → t.loader ≡ some j
    → holds (t.threads j) ≡ true
unfolding act
act-held s (call_play i req resume) idle j h at own other k = ground arith
act-held s a p j h at own other k = ground arith

-- The generation never falls, and a thread gets only the newest or keeps its own.
pub act-generation :
    (s : State) (a : Action) (p : Phase) {t : State}
    → act s a p ≡ some t
    → HasRoom s
    → s.play_generation ≤ t.play_generation
unfolding act
act-generation s (call_play i req resume) idle h room = ground arith
act-generation s a p h room = ground arith

act-own_generation :
    (s : State) (a : Action) (p : Phase) (g : ℕ) {t : State}
    → act s a p ≡ some t
    → s.threads (thread_of a) ≡ p
    → HasRoom s
    → generation_of (t.threads (thread_of a)) ≡ some g
    → (generation_of p ≡ some g) ⊎ ((g ≡ t.play_generation) × (s.play_generation < g))
unfolding act
act-own_generation s (call_play i req resume) idle g h at room k = ground arith
act-own_generation s a p g h at room k = ground arith

-- `closed` is set for good, before `Close` goes on and before `done` is closed.
act-closers :
    (s : State) (a : Action) (p : Phase) (j : ℕ) {t : State}
    → act s a p ≡ some t
    → s.threads (thread_of a) ≡ p
    → (is_closing p ≡ true → s.closed ≡ true)
    → (is_closing (s.threads j) ≡ true → s.closed ≡ true)
    → is_closing (t.threads j) ≡ true
    → t.closed ≡ true
unfolding act
act-closers s (call_play i req resume) idle j h at own other k = ground arith
act-closers s a p j h at own other k = ground arith

act-done :
    (s : State) (a : Action) (p : Phase) {t : State}
    → act s a p ≡ some t
    → (is_closing p ≡ true → s.closed ≡ true)
    → (s.done_closed ≡ true → s.closed ≡ true)
    → t.done_closed ≡ true
    → t.closed ≡ true
unfolding act
act-done s (call_play i req resume) idle h own d k = ground arith
act-done s a p h own d k = ground arith

module _ {s : State} (inv : Inv s) (room : HasRoom s) (a : Action) {t : State}
    (h : step s a ≡ some t) where
  step-bounded : (j g : ℕ) → generation_of (t.threads j) ≡ some g → g ≤ t.play_generation
  unfolding step
  step-bounded j g k =
      let i = thread_of a in
      let grows = act-generation s a (s.threads i) h room in
      elim (Bool-cases (i == j)) [
        | inl e ↦
            elim (act-own_generation s a (s.threads i) g h refl room (rw ((==_iff i j).0 e) k)) [
              | inl same ↦ omega (arith, inv.bounded i g same)
              | inr fresh ↦ omega (arith, fresh.0)
            ]
        | inr n ↦ omega (arith, inv.bounded j g (rw (act-other s a (s.threads i) j h n) at k))
      ]

  -- A thread that did not move has a generation that a thread that moved cannot get.
  step-distinct_moved :
      (j g : ℕ)
      → (thread_of a == j) ≡ false
      → generation_of (t.threads (thread_of a)) ≡ some g
      → generation_of (t.threads j) ≡ some g
      → thread_of a ≡ j
  unfolding step
  step-distinct_moved j g n k l =
      let i = thread_of a in
      let l' = rw (act-other s a (s.threads i) j h n) at l in
      elim (act-own_generation s a (s.threads i) g h refl room k) [
        | inl same ↦ inv.distinct i j g same l'
        | inr fresh ↦ absurd (omega (arith, inv.bounded j g l', fresh.1))
      ]

  step-distinct :
      (i j g : ℕ)
      → generation_of (t.threads i) ≡ some g
      → generation_of (t.threads j) ≡ some g
      → i ≡ j
  unfolding step
  step-distinct i j g k l =
      let m = thread_of a in
      elim (Bool-cases (m == i)) [
        | inl ei ↦ elim (Bool-cases (m == j)) [
          | inl ej ↦ omega (arith, (==_iff m i).0 ei, (==_iff m j).0 ej)
          | inr nj ↦
              sym ((==_iff m i).0 ei) ∙ step-distinct_moved j g nj (rw ((==_iff m i).0 ei) k) l
        ]
        | inr ni ↦ elim (Bool-cases (m == j)) [
          | inl ej ↦
              sym (step-distinct_moved i g ni (rw ((==_iff m j).0 ej) l) k) ∙ (==_iff m j).0 ej
          | inr nj ↦
              inv.distinct i j g (rw (act-other s a (s.threads m) i h ni) at k)
                (rw (act-other s a (s.threads m) j h nj) at l)
        ]
      ]

  -- Every step of every thread keeps the invariant, as long as the generation does not wrap.
  pub step-Inv : Inv t
  unfolding step
  step-Inv = record {
    holder = λ j. act-holder s a _ j h refl (inv.holder (thread_of a)) (inv.holder j);
    held = λ j. act-held s a _ j h refl (inv.holder (thread_of a)) (inv.held j);
    bounded = step-bounded;
    distinct = step-distinct;
    closers = λ j. act-closers s a _ j h refl (inv.closers (thread_of a)) (inv.closers j);
    done_after = act-done s a _ h (inv.closers (thread_of a)) inv.done_after;
  }

pub new-Inv : Inv new
unfolding new
new-Inv = record {
  holder = λ j k. cc;
  held = λ j k. cc;
  bounded = λ j g k. cc;
  distinct = λ i j g k l. cc;
  closers = λ j k. cc;
  done_after = λ k. cc;
}

-- The states of a controller over its life, as far as its 64-bit generation does not wrap.
pub data Reach : State → Type 0 where
  start : {s : State} → s ≡ new → Reach s
  next : {s t : State} → Reach s → HasRoom s → (a : Action) → step s a ≡ some t → Reach t

pub Reach-Inv : {s : State} → Reach s → Inv s
Reach-Inv (start e) = rw e new-Inv
Reach-Inv (next r room a h) = step-Inv (Reach-Inv r) room a h

-- In every state that a controller reaches, whatever the threads do: two threads never hold
-- `loadMu` at once, the lock is never held by a thread that cannot release it, two attempts in
-- flight have different generations, none of them above the current one, and `done` is closed
-- only after `closed` is set.
pub Reach-exclusive :
    {s : State}
    → Reach s
    → ((i j : ℕ) → holds (s.threads i) ≡ true → holds (s.threads j) ≡ true → i ≡ j)
      × ((j : ℕ) → s.loader ≡ some j → holds (s.threads j) ≡ true)
      × ((i j g : ℕ)
          → generation_of (s.threads i) ≡ some g
          → generation_of (s.threads j) ≡ some g
          → i ≡ j)
      × ((j g : ℕ) → generation_of (s.threads j) ≡ some g → g ≤ s.play_generation)
      × (s.done_closed ≡ true → s.closed ≡ true)
Reach-exclusive {s} r =
    let inv = Reach-Inv r in
    (
      λ i j k l. cc (inv.holder i k, inv.holder j l),
      inv.held,
      inv.distinct,
      inv.bounded,
      inv.done_after,
    )
