-- ===== src/Playback/Proxy/Calls.antt =====
-- internal/playback/media_proxy.go: any sequence of calls.
pub mod Safe
pub mod Revoked
use hummtube.Base.{ℕ, ℤ, Bytes, Bool, String, List, [], ◌∷◌, Option, none, some}
use hummtube.Domain.Vocabulary.{Time}
use hummtube.Domain.Playback.{PlaybackPlan}
use hummtube.Playback.Ytdlp.Headers.{Headers}
use hummtube.Playback.Proxy.Target.{MediaUrl}
use hummtube.Playback.Proxy.Sessions.{Lifetime, MediaProxy, ProxyEnv}
use hummtube.Playback.Proxy.Access.{session, mark_session_observed}
use hummtube.Playback.Proxy.Wrap.{revoke, wrap_plan}
use hummtube.Playback.Proxy.Hls.{rewrite_hls_manifest}

-- A call with the instant of its clock. A manifest is rewritten for a session that was looked up
-- before, maybe long ago: with its lifetime, target, headers and deadline.
pub data Call : Type 0 where
  wrapping : Time → Bool → Bool → PlaybackPlan → Call
  serving : Time → String → Call
  observing : Time → String → Call
  rewriting : Time → Lifetime → MediaUrl → Headers → Time → Bytes → Call
  revoking : Call

-- `NewMediaProxy`, with its settings
abbrev pub new_media_proxy : Bool → String → ℤ → MediaProxy
new_media_proxy allow base max_sessions = record {
  sessions = [];
  current_plan = none;
  local_base_url = base;
  allow_private_network = allow;
  max_sessions = max_sessions;
  plans = 0;
  drawn = 0;
}

module _ (env : ProxyEnv) where
  unfoldable pub after_call : Call → MediaProxy → MediaProxy
  unfolding wrap_plan session mark_session_observed rewrite_hls_manifest revoke
  after_call (wrapping now over_before over_after plan) p =
      (wrap_plan env now over_before over_after plan p).1
  after_call (serving now token) p = (session now token p).1
  after_call (observing now token) p = (mark_session_observed now token p).1
  after_call (rewriting now lifetime base headers expires body) p =
      (rewrite_hls_manifest env now lifetime base headers expires body p).1
  after_call revoking p = revoke p

  unfoldable pub after_calls : List Call → MediaProxy → MediaProxy
  unfolding after_call
  after_calls [] p = p
  after_calls (call ∷ calls) p = after_calls calls (after_call call p)
