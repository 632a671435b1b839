-- ===== src/Deconj.antt =====
-- src/deconj: the deconjugator, from its rule set to the forms and the paths that it returns.
pub mod Rules
pub mod Process
pub mod Search
