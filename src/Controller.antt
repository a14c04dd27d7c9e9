-- ===== src/Controller.antt =====
-- pkg/controller: the cache of pending revisions, the backup policy, and the parts that work on them.
pub mod Cache
pub mod Policy
pub mod Flusher
pub mod Purger
pub mod Reaper
pub mod Metrics
pub mod Operator
