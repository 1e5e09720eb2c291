-- ===== src/Message.antt =====
-- internal/message: the message journal, its lifecycle rules, resolutions, and the router.
pub mod Kinds
pub mod Json
pub mod Lifecycle
pub mod Evolution
pub mod Store
pub mod Resolution
pub mod Router
mod Examples
