-- ===== src/Kafka.antt =====
-- src/openwhisk/kafka.cc: the settings of the broker, the heartbeat, and the loop that takes activations from
-- OpenWhisk and sends completions back.
pub mod Defs
pub mod Answers
pub mod Texts
pub mod Documents
pub mod Loops
mod Examples
