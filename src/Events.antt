-- ===== src/Events.antt =====
-- internal/events: the hub of live events of broker.go.
pub mod Broker
pub mod Recorder
