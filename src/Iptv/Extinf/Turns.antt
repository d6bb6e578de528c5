-- ===== src/Iptv/Extinf/Turns.antt =====
-- The loop of `parseAttributes` ends: every turn takes a character.
