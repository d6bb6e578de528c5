-- ===== src/Playback/Failure/Needles.antt =====
-- internal/playback/failure.go: the markers of the table `failureNeedles`, in their order.
use hummtube.Base.{String, List, [], ◌∷◌}
use hummtube.Playback.Failure.Kind.{
  FailureKind, bot_check, cookie_decryption, drm, ejs_missing, expired_media_url,
  extractor_output_limit, extractor_timeout, js_runtime_missing, media_blocked, network, no_formats,
  pot_generation, pot_provider_missing, rate_limited, restricted, unavailable, visitor_data_missing,
  ytdlp_missing,
}

-- `failureNeedles`
unfoldable pub failure_needles : List (String × FailureKind)
failure_needles =
    ("could not be decrypted", cookie_decryption)
    ∷ ("cannot decrypt", cookie_decryption)
    ∷ ("no key found", cookie_decryption)
    ∷ ("secretstorage not available", cookie_decryption)
    ∷ ("sign in to confirm your age", restricted)
    ∷ ("confirm your age", restricted)
    ∷ ("age-restricted", restricted)
    ∷ ("members-only", restricted)
    ∷ ("sign in to confirm", bot_check)
    ∷ ("not a bot", bot_check)
    ∷ ("confirm you", bot_check)
    ∷ ("botguard", pot_generation)
    ∷ ("missing required visitor data", visitor_data_missing)
    ∷ ("po token which was not provided", pot_provider_missing)
    ∷ ("no po token providers registered", pot_provider_missing)
    ∷ ("pot provider", pot_provider_missing)
    ∷ ("po token", pot_generation)
    ∷ ("429", rate_limited)
    ∷ ("too many requests", rate_limited)
    ∷ ("403 forbidden", media_blocked)
    ∷ ("403: forbidden", media_blocked)
    ∷ ("requested format is not available", no_formats)
    ∷ ("only images are available", no_formats)
    ∷ ("missing a url", no_formats)
    ∷ ("sabr", no_formats)
    ∷ ("n challenge", no_formats)
    ∷ ("no such file or directory: 'yt-dlp'", ytdlp_missing)
    ∷ ("youtube-dl not found", ytdlp_missing)
    ∷ ("ytdl_hook", ytdlp_missing)
    ∷ ("drm", drm)
    ∷ ("protected content", drm)
    ∷ ("private video", unavailable)
    ∷ ("video unavailable", unavailable)
    ∷ ("live stream recording is not available", unavailable)
    ∷ ("temporary failure in name resolution", network)
    ∷ ("connection refused", network)
    ∷ ("timed out", network)
    ∷ ("extractor excedeu o tempo limite", extractor_timeout)
    ∷ ("extractor exceeded timeout", extractor_timeout)
    ∷ ("saída do extractor excedeu o limite seguro", extractor_output_limit)
    ∷ ("extractor output exceeded safe limit", extractor_output_limit)
    ∷ ("url has expired", expired_media_url)
    ∷ ("url expired", expired_media_url)
    ∷ ("signature has expired", expired_media_url)
    ∷ ("js-runtime", js_runtime_missing)
    ∷ ("ejs", ejs_missing)
    ∷ []
