-- ===== src/Queue.antt =====
-- app/queue: the stream client, the producer and the consumer.
pub mod Redis
pub mod Producer
pub mod Client
pub mod Consumer
