-- ===== src/Consumer.antt =====
-- The consumer (internal/consumer/server.py, pkg/kafka/consumer.py): what it does with a batch of
-- messages, with a crisis assessment and with each analysed document.
pub mod Levels
pub mod Runtime
pub mod Cooldown
pub mod Batch
pub mod Gate
pub mod Persist
mod Examples
