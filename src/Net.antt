-- ===== src/Net.antt =====
-- The processes of rpBenchmark2/com.c at work: any number of threads in each user process, and the
-- router, interleaved in any order. A thread sends as com_mcast, send_raw_message and
-- sender_thread_main do: it prepares the buffer, writes the message once, sends it to a list of
-- ranks and finishes the buffer.
pub mod Thread
pub mod System
pub mod Weights
pub mod Local
pub mod Routing
pub mod Tokens
pub mod Safety
pub mod Start
pub mod Destroyed
pub mod Flow
pub mod Delivery
pub mod Channel
pub mod Progress
pub mod Sound
pub mod Closing
