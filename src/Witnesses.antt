-- ===== src/Witnesses.antt =====
-- The theorems at concrete inputs.
pub mod Locking
pub mod Lookups
pub mod Committing
pub mod Editing
pub mod Naming
pub mod Messages
pub mod Serving
pub mod Moving
pub mod Typing
pub mod Storing
pub mod Events
