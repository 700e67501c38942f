-- ===== src/CaptureWorker.antt =====
-- capture_worker.py: the packet sniffer that runs in a helper container.
pub mod Health
pub mod Streams
pub mod Order
pub mod Repeats
pub mod Flows
pub mod Balance
pub mod Ticks
pub mod Directions
pub mod Dns
pub mod Names
pub mod Written
pub mod Answers
mod Examples
