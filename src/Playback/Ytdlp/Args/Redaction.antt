-- ===== src/Playback/Ytdlp/Args/Redaction.antt =====
-- What the line for the log tells.
use hummtube.Base.{◌≡◌, refl, is_empty}
use hummtube.Playback.Failure.Kind.{YtdlConfig}
use hummtube.Playback.Ytdlp.Args.{redacted}

-- The settings agree on what may be told: the name of the runtime, the client of YouTube, the remote
-- components and the greatest height, and of the runtime's path, the provider of tokens and the
-- cookies only whether they are set.
abbrev pub IsAlike : YtdlConfig → YtdlConfig → Type 0
IsAlike c d =
    (c.js_runtime.name ≡ d.js_runtime.name)
    × (is_empty c.js_runtime.path ≡ is_empty d.js_runtime.path)
    × (c.player_client ≡ d.player_client)
    × (is_empty c.pot_provider ≡ is_empty d.pot_provider)
    × (c.allow_remote_components ≡ d.allow_remote_components)
    × (is_empty c.cookies_from_browser ≡ is_empty d.cookies_from_browser)
    × (is_empty c.cookies_file ≡ is_empty d.cookies_file)
    × (c.max_height ≡ d.max_height)

-- The line for the log tells no secret: settings that agree on what may be told have the same line,
-- whatever the paths, the provider's address and the cookies are.
pub redacted-alike : (c d : YtdlConfig) → IsAlike c d → redacted c ≡ redacted d
unfolding redacted
redacted-alike c d (runtime, path, client, pot, remote, browser, file, height) =
    simp (runtime, path, client, pot, remote, browser, file, height) refl
