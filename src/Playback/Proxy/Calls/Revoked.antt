-- ===== src/Playback/Proxy/Calls/Revoked.antt =====
-- What a local URL gives while its plan stands, and after it was revoked.
use Prim.Native.String.{◌++◌ as append}
use hummtube.Base.{◌≡◌, Bool, true, false, String, [], none}
use hummtube.Playback.Proxy.Sessions.{MediaProxy}
use hummtube.Playback.Proxy.Calls.{Call, wrapping, serving, observing, rewriting, revoking}

abbrev pub is_wrapping : Call → Bool
is_wrapping (wrapping now over_before over_after plan) = true
is_wrapping (serving now token) = false
is_wrapping (observing now token) = false
is_wrapping (rewriting now lifetime base headers expires body) = false
is_wrapping revoking = false

-- The proxy has no plan and no session.
abbrev IsRevoked : MediaProxy → Type 0
IsRevoked p = (p.sessions ≡ []) × (p.current_plan ≡ none)
