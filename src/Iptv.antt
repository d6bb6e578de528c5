-- ===== src/Iptv.antt =====
-- internal/iptv: the import of playlists in the format M3U.
pub mod Model
pub mod Extinf
pub mod M3u
pub mod Network
mod Tests
