-- ===== src/Db.antt =====
-- The request/response benchmark, rpBenchmark2/main.c.
pub mod Queue
pub mod Payload
pub mod Message
pub mod Slot
pub mod Receiver
pub mod Compute
