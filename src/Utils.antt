-- ===== src/Utils.antt =====
-- lib/libkvm/utils: checksums, random numbers and queues.
pub mod Crc
pub mod XorShift
pub mod BlockingQueue
mod Tests
