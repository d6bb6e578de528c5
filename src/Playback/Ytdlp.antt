-- ===== src/Playback/Ytdlp.antt =====
-- internal/playback/explicit_ytdlp.go: from the formats that yt-dlp lists to a plan of playback.
pub mod Format
pub mod Headers
pub mod Pick
pub mod Variants
pub mod Plan
pub mod Args
pub mod RawOptions
pub mod Client
mod Tests
