-- ===== src/Facts.antt =====
-- facts/: the facts of one server, what is inferred from them, and the merge of what the collectors
-- report. The proofs are in the children of each part.
pub mod Types
pub mod Infer
pub mod Merge
pub mod Build
mod Tests
