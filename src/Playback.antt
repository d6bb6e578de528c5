-- ===== src/Playback.antt =====
-- internal/playback: the controller of the player, the cache of plans, and the chain of providers.
pub mod Commands
pub mod Controller
pub mod Cache
pub mod Failure
pub mod Selection
pub mod Cascade
pub mod Ytdlp
pub mod Proxy
mod Tests
