-- ===== src/Store.antt =====
-- crates/wicara/src/store.rs: the client's message store, by its tables, the folding of a
-- conversation out of its operations, and what erases one.
pub mod Tables
pub mod History
pub mod Erase
pub mod Replay
pub mod Amend
pub mod Authors
