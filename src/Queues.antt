-- ===== src/Queues.antt =====
-- The S3-FIFO queues of src/store.rs (`S3FifoQueues`). The Small and the Main queue have the same code,
-- which is written once, over a queue with its membership set and its capacity.
pub mod Fifo
pub mod Ghost
pub mod Sync
pub mod Tail
