-- ===== src/Webhook.antt =====
-- internal/webhook: the authenticated HTTP surface of the runner.
pub mod TimedStore
pub mod ReplayCache
pub mod DedupCache
pub mod Payload
pub mod Charset
pub mod Validate
pub mod Handler
pub mod Retries
pub mod Admission
pub mod Sessions
pub mod Kills
pub mod Echoes
pub mod Rollback
pub mod StopAll
pub mod Endings
pub mod Replayed
