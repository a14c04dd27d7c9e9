-- ===== src/Store.antt =====
-- pkg/store: the revisions of Kubernetes objects and the stores that hold them.
pub mod Revision
pub mod RevisionList
pub mod Backend
pub mod Storage
pub mod InMemory
pub mod ReadWrite
pub mod Open
pub mod AsyncWriter
pub mod Config
pub mod Metrics
pub mod Marshal
pub mod Crypt
pub mod Storer
