-- ===== src/Search.antt =====
-- internal/search: the options of a search, their checks, and the local filters on its results.
pub mod Options
pub mod Local
mod Tests
