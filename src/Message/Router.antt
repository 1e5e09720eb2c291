-- ===== src/Message/Router.antt =====
-- internal/message/router.go: the durable inbox and outbox of one run.
pub mod Base
pub mod Ops
pub mod Entries
pub mod Accepted
pub mod Synced
pub mod Durable
pub mod History
pub mod Divergence
