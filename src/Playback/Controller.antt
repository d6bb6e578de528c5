-- ===== src/Playback/Controller.antt =====
-- internal/playback/controller.go: `PlayAtTracked` and its goroutine `play`, `Stop`, `Close`, `relay`
-- and `emit`, as atomic steps of any number of threads. A step is what one thread does between two
-- points at which another can run: a section under `mu`, taking or releasing `loadMu`, one send.
-- The resolver and the player's `Load` are the environment: an action says what they answered.
pub mod Invariant
pub mod Stopping
pub mod Sends
use hummtube.Base.{
  ℕ, suc, ◌+◌, ◌%◌, ◌^◌, ℤ, pos, ltb_ℤ, Bool, true, false, not, ◌&&◌, ◌||◌, String, List, [], ◌∷◌,
  Option, none, some, if◌then◌else◌, ◌==◌,
}
use hummtube.Domain.Vocabulary.{Duration}
use hummtube.Domain.Playback.{
  PlaybackRequest, PlaybackPlan, PlayerEvent, PlayerEventKind, load_started, error,
}

-- Where a thread stands.
pub data Phase : Type 0 where
  idle : Phase
  -- `PlayAtTracked` past the test of `closed`
  entered : PlaybackRequest → Duration → Phase
  -- the goroutine `play` of an attempt: in `Resolve`, about to send its error, or with a plan
  resolving : ℕ → PlaybackRequest → Duration → Phase
  unresolved : ℕ → PlaybackRequest → Phase
  ready : ℕ → PlaybackRequest → Duration → PlaybackPlan → Phase
  -- with `loadMu`: before the test of the generation, past it, in `Load`; about to send its error
  checking : ℕ → PlaybackRequest → Duration → PlaybackPlan → Phase
  starting : ℕ → PlaybackRequest → Duration → PlaybackPlan → Phase
  loading : ℕ → PlaybackRequest → PlaybackPlan → Phase
  -- `Load` failed; the flags: with `context.Canceled`, while the attempt was active
  unloaded : ℕ → PlaybackRequest → Bool → Bool → Phase
  failing : ℕ → PlaybackRequest → Phase
  -- `Stop` past the test, past its section under `mu`, with `loadMu`
  stop_entered stop_waiting stopping : Phase
  -- `Close` past the swap of `closed`, past its section under `mu`, past `close(done)`, with `loadMu`
  close_entered close_marked close_waiting closing : Phase

pub record State : Type 0 where
  pub play_generation : ℕ  -- uint64
  pub current : PlaybackRequest
  pub resolved_title : String
  -- the attempt whose context `cancelResolution` cancels
  pub cancel_resolution : Option ℕ
  -- whose contexts are done
  pub canceled : ℕ → Bool
  pub closed : Bool
  pub done_closed : Bool
  pub events_closed : Bool
  -- a send on the closed channel of events
  pub panicked : Bool
  -- the thread that holds `loadMu`
  pub loader : Option ℕ
  pub threads : ℕ → Phase
  pub events : List PlayerEvent
  -- the attempts for which the player's `Load` was called, the last first
  pub loads : List ℕ

-- What happens next: a thread's step, with the environment's answer, or the relay's end.
pub data Action : Type 0 where
  call_play : ℕ → PlaybackRequest → Duration → Action
  lock_play : ℕ → Action
  resolved : ℕ → PlaybackPlan → Action
  -- `Resolve` failed; the flag: with `context.Canceled`
  resolve_failed : ℕ → Bool → Action
  -- the flag of a send: it went to the channel of events, and not to `done`
  send_unresolved : ℕ → Bool → Action
  take_lock : ℕ → Action
  check : ℕ → Action
  start_load : ℕ → Bool → Action
  loaded : ℕ → Action
  -- `Load` failed; the flag: with `context.Canceled`
  load_failed : ℕ → Bool → Action
  give_up : ℕ → Action
  send_failing : ℕ → Bool → Action
  call_stop : ℕ → Action
  lock_stop : ℕ → Action
  stop_player : ℕ → Action
  call_close : ℕ → Action
  lock_close : ℕ → Action
  signal_close : ℕ → Action
  close_player : ℕ → Action
  -- the relay passes an event of the player on
  relay_event : PlayerEvent → Action
  -- the flag: the player's own stream of events has ended
  relay_exit : Bool → Action
  -- the caller's own context of an attempt is done
  cancel_caller : ℕ → Action

abbrev pub no_request : PlaybackRequest
no_request = record { source_url = ""; video_id = "" }

-- `NewController`
unfoldable pub new : State
new = record {
  play_generation = 0;
  current = no_request;
  resolved_title = "";
  cancel_resolution = none;
  canceled = λ _. false;
  closed = false;
  done_closed = false;
  events_closed = false;
  panicked = false;
  loader = none;
  threads = λ _. idle;
  events = [];
  loads = [];
}

abbrev pub update {ℓ} : {A : Type ℓ} → (ℕ → A) → ℕ → A → ℕ → A
update f i a j = if i == j then a else f j

-- Thread `i` goes on to a phase.
abbrev pub go : State → ℕ → Phase → State
go s i p = record s { threads = update s.threads i p }

-- `if c.cancelResolution != nil { c.cancelResolution() }`
abbrev pub cancel : Option ℕ → (ℕ → Bool) → ℕ → Bool
cancel none f = f
cancel (some g) f = update f g true

-- `playGeneration++` on a uint64
abbrev pub next_generation : ℕ → ℕ
next_generation g = (g + 1) % 2 ^ 64

-- The section of `PlayAtTracked` under `mu`, and the start of the goroutine.
unfoldable pub begin_attempt : State → ℕ → PlaybackRequest → Duration → State
begin_attempt s i req resume =
    let g = next_generation s.play_generation in
    record s {
      play_generation = g;
      canceled = update (cancel s.cancel_resolution s.canceled) g false;
      cancel_resolution = some g;
      threads = update s.threads i (resolving g req resume);
    }

-- The section of `Stop` under `mu`.
unfoldable pub clear_current : State → ℕ → State
clear_current s i = record s {
  canceled = cancel s.cancel_resolution s.canceled;
  cancel_resolution = none;
  play_generation = next_generation s.play_generation;
  current = no_request;
  resolved_title = "";
  threads = update s.threads i stop_waiting;
}

-- `generation == c.playGeneration && !c.closed.Load()`
abbrev pub is_active : State → ℕ → Bool
is_active s g = (g == s.play_generation) && not s.closed

-- The section of `play` under `mu` after a `Load` that succeeded, and the release of `loadMu`.
unfoldable pub commit : State → ℕ → ℕ → PlaybackRequest → PlaybackPlan → State
commit s i g req plan =
    if is_active s g
    then record s {
      current = req;
      resolved_title = plan.metadata.title;
      loader = none;
      threads = update s.threads i idle;
    }
    else record s { loader = none; threads = update s.threads i idle }

-- `emit`: a send to the channel of events, or, once `done` is closed, nothing; `none` where the
-- choice is not open. A send on the closed channel panics, which ends the program: `panicked`
-- says that it happened, and the steps after it are no longer the program's.
unfoldable pub emit : State → Bool → PlayerEvent → Option State
emit s delivered ev =
    if delivered
    then some (
        if s.events_closed
        then record s { panicked = true }
        else record s { events = ev ∷ s.events })
    else if s.done_closed
    then some s
    else none

abbrev pub event_of : PlayerEventKind → ℕ → PlaybackRequest → Bool → PlayerEvent
event_of k g req bad = record {
  kind = k;
  generation = g;
  request = req;
  failed = bad;
  paused = false;
}

-- `Close`: the swap of `closed` succeeds once.
abbrev pub begin_close : State → ℕ → State
begin_close s i = if s.closed then s else record (go s i close_entered) { closed = true }

-- The section of `Close` under `mu`.
abbrev pub cancel_pending : State → ℕ → State
cancel_pending s i = record (go s i close_marked) {
  canceled = cancel s.cancel_resolution s.canceled;
}

-- `relay` sends an event of the player on, as long as it runs.
abbrev pub forward : State → PlayerEvent → Option State
forward s ev = if s.events_closed then none else some (record s { events = ev ∷ s.events })

-- `relay` returns, at the end of the player's events or after `close(done)`, and closes its channel.
abbrev pub end_events : State → Bool → Option State
end_events s ended =
    if s.done_closed || ended then some (record s { events_closed = true }) else none

abbrev pub then_go : Option State → (State → State) → Option State
then_go none f = none
then_go (some s) f = some (f s)

-- `resumeAt < 0` becomes 0.
abbrev pub at_least_zero : Duration → Duration
at_least_zero d = if ltb_ℤ d (pos 0) then pos 0 else d

-- What the action does to a thread in a phase; `none` where it is not its next step.
unfoldable pub act : State → Action → Phase → Option State
unfolding begin_attempt clear_current commit emit
-- `ErrClosed` leaves all as it is.
act s (call_play i req resume) idle =
    some (if s.closed then s else go s i (entered req (at_least_zero resume)))
act s (lock_play i) (entered req resume) = some (begin_attempt s i req resume)
act s (resolved i plan) (resolving g req resume) = some (go s i (ready g req resume plan))
act s (resolve_failed i was_canceled) (resolving g req resume) =
    some (go s i (if was_canceled || s.canceled g then idle else unresolved g req))
act s (send_unresolved i delivered) (unresolved g req) =
    then_go (emit s delivered (event_of error g req true)) (λ t. go t i idle)
act s (take_lock i) (ready g req resume plan) = elim s.loader [
  | none ↦ some (record (go s i (checking g req resume plan)) { loader = some i })
  | some _ ↦ none
]
act s (take_lock i) stop_waiting = elim s.loader [
  | none ↦ some (record (go s i stopping) { loader = some i })
  | some _ ↦ none
]
act s (take_lock i) close_waiting = elim s.loader [
  | none ↦ some (record (go s i closing) { loader = some i })
  | some _ ↦ none
]
act s (check i) (checking g req resume plan) = some (
    if not (g == s.play_generation) || s.canceled g || s.closed
    then record (go s i idle) { loader = none }
    else go s i (starting g req resume plan))
act s (start_load i delivered) (starting g req resume plan) =
    then_go (emit s delivered (event_of load_started g req false))
      (λ t. record (go t i (loading g req plan)) { loads = g ∷ t.loads })
act s (loaded i) (loading g req plan) = some (commit s i g req plan)
act s (load_failed i was_canceled) (loading g req plan) =
    some (go s i (unloaded g req was_canceled (is_active s g)))
act s (give_up i) (unloaded g req was_canceled active) = some (
    if was_canceled || s.canceled g || not active
    then record (go s i idle) { loader = none }
    else go s i (failing g req))
act s (send_failing i delivered) (failing g req) =
    then_go (emit s delivered (event_of error g req true))
      (λ t. record (go t i idle) { loader = none })
act s (call_stop i) idle = some (if s.closed then s else go s i stop_entered)
act s (lock_stop i) stop_entered = some (clear_current s i)
act s (stop_player i) stopping = some (record (go s i idle) { loader = none })
act s (call_close i) idle = some (begin_close s i)
act s (lock_close i) close_entered = some (cancel_pending s i)
act s (signal_close i) close_marked = some (record (go s i close_waiting) { done_closed = true })
act s (close_player i) closing = some (record (go s i idle) { loader = none })
act s (relay_event ev) _ = forward s ev
act s (relay_exit ended) _ = end_events s ended
act s (cancel_caller g) _ = some (record s { canceled = update s.canceled g true })
act s _ _ = none

-- The thread whose step an action is.
abbrev pub thread_of : Action → ℕ
thread_of (call_play i _ _) = i
thread_of (lock_play i) = i
thread_of (resolved i _) = i
thread_of (resolve_failed i _) = i
thread_of (send_unresolved i _) = i
thread_of (take_lock i) = i
thread_of (check i) = i
thread_of (start_load i _) = i
thread_of (loaded i) = i
thread_of (load_failed i _) = i
thread_of (give_up i) = i
thread_of (send_failing i _) = i
thread_of (call_stop i) = i
thread_of (lock_stop i) = i
thread_of (stop_player i) = i
thread_of (call_close i) = i
thread_of (lock_close i) = i
thread_of (signal_close i) = i
thread_of (close_player i) = i
thread_of (relay_event _) = 0
thread_of (relay_exit _) = 0
thread_of (cancel_caller _) = 0

-- One step, if it is open.
unfoldable pub step : State → Action → Option State
unfolding act
step s a = act s a (s.threads (thread_of a))

-- A run of steps.
unfoldable pub run : State → List Action → Option State
run s [] = some s
run s (a ∷ rest) = elim (step s a) [ none ↦ none | some t ↦ run t rest ]
