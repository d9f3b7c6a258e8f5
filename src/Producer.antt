-- ===== src/Producer.antt =====
-- `class KafkaProducer` (KafkaProducer.h, KafkaProducer.cpp).
pub mod State
pub mod Clock
pub mod Uuid
pub mod Headers
pub mod Send
pub mod Configure
pub mod Lifecycle
pub mod Polling
pub mod Threads
pub mod Session
