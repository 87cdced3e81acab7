-- ===== src/LogParser.antt =====
-- internal/logparser: bounded reads of a worker's stream, redaction of secrets, and the entries that
-- a line of stream-json gives.
pub mod Line
pub mod Redactor
pub mod ToolCall
pub mod Stream
