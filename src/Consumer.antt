-- ===== src/Consumer.antt =====
-- `class KafkaConsumer` (KafkaConsumer.h, KafkaConsumer.cpp).
pub mod State
pub mod Clock
pub mod Body
pub mod Receive
pub mod Session
pub mod Lifecycle
