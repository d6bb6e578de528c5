-- ===== src/Playback/Proxy/Serve/Sent.antt =====
-- What a request to the remote server tells it.
use hummtube.Base.{◌≡◌, Bool, true, false, ◌||◌, String, [], ◌∷◌, str_eq, any}
use hummtube.Domain.Vocabulary.{CaseTable}
use hummtube.Playback.Ytdlp.Headers.{Headers, has_line_break, is_allowed_name}
use hummtube.Playback.Proxy.Serve.{ServeEnv}

-- The names that a request to the remote server may have: those that the player's request may pass
-- on, and those of a session.
abbrev pub may_send : CaseTable → String → Bool
may_send table name =
    any (str_eq name) ("Range" ∷ "If-Range" ∷ "Accept" ∷ "Accept-Encoding" ∷ [])
    || is_allowed_name table name

module _ (env : ServeEnv) where
  -- A header with a name that may be sent and a value on one line.
  abbrev pub IsSent : String × String → Type 0
  IsSent h =
      ((name : String) × (h.0 ≡ env.canonical name) × (may_send env.proxy.net.table name ≡ true))
      × (has_line_break h.1 ≡ false)
