-- ===== src/Playback/Controller/Sends.antt =====
-- What `emit` can meet after `Close`, and which steps change what is shown as current.
use hummtube.Base.{◌≡◌, true, false, Bool, ℕ, Option, none, some, arith, [], ◌∷◌, ◌==◌}
use hummtube.Domain.Vocabulary.{Duration}
use hummtube.Domain.Playback.{PlaybackRequest, PlaybackPlan}
use hummtube.Playback.Controller.{
  idle, starting, State, call_close, lock_close, signal_close, relay_exit, start_load, act, step,
  run,
}

abbrev pub ends_in_panic : Option State → Bool
ends_in_panic none = false
ends_in_panic (some s) = s.panicked

-- `Close` between the test of `closed` in `play` and its next send: the relay closes the channel of
-- events, and the send, which may choose it over `done`, panics. So it goes from every state in
-- which one thread has passed the test and another can call `Close`.
pub close_then_send_panics :
    (s : State) (i j g : ℕ) (req : PlaybackRequest) (resume : Duration) (plan : PlaybackPlan)
    → s.threads i ≡ starting g req resume plan
    → s.threads j ≡ idle
    → s.closed ≡ false
    → (j == i) ≡ false
    → ends_in_panic (
        run s (
          call_close j ∷ lock_close j ∷ signal_close j ∷ relay_exit false ∷ start_load i true ∷ []))
      ≡ true
unfolding run step act
close_then_send_panics s i j g req resume plan at other open_still apart = ground arith
