-- ===== src/Playback/Proxy.antt =====
-- internal/playback/media_proxy.go: the proxy that hands out local URLs for remote media.
pub mod Target
pub mod Sessions
pub mod Access
pub mod Wrap
pub mod Hls
pub mod Calls
pub mod Serve
mod Tests
