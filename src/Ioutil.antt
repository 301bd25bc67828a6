-- ===== src/Ioutil.antt =====
-- The package ioutil.
pub mod Seq
pub mod AckWaiter
pub mod AtomicBool
pub mod BufRead
