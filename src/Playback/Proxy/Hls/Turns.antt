-- ===== src/Playback/Proxy/Hls/Turns.antt =====
-- The loop over the attributes of a line has turns enough.
use hummtube.Playback.Ytdlp.Headers.{Headers}
