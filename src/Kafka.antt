-- ===== src/Kafka.antt =====
-- The parts of librdkafka's C++ interface (common/include/kafka/rdkafkacpp.h) that the client
-- speaks to: its data, the calls with their answers, and the lifetimes of its objects. The library
-- itself is a parameter of the model, the record `Env`.
mod Errors
mod Types
mod Calls
mod Lifetime
pub use Errors.{LocalError, BrokerError, ErrorCode, is_no_error}
pub use Types.*
pub use Calls.*
unfoldable pub use Lifetime.*
