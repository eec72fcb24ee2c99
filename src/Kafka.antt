-- ===== src/Kafka.antt =====
-- messaging/kafka: the outbox publisher, and the consumer with its dispatchers.
pub mod Publisher
pub mod Work
pub mod Reports
pub mod Fetch
pub mod Rounds
pub mod Dispatch
pub mod Consumer
pub mod Handled
mod Tests
