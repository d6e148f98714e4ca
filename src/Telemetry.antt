-- ===== src/Telemetry.antt =====
-- internal/telemetry: the bounded JSONL event log.
pub mod Jsonl
pub mod Record
