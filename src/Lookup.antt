-- ===== src/Lookup.antt =====
-- src/lookup: the results of a lookup and their order.
pub mod Ranking
pub mod Engine
