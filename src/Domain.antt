-- ===== src/Domain.antt =====
-- internal/domain: the data that the other packages share, and the pure rules on it.
pub mod Vocabulary
pub mod Video
pub mod Search
pub mod Playback
pub mod Feed
pub mod Playlist
pub mod Rule
mod Tests
