-- ===== src/DspQueue.antt =====
-- src/dspqueue/dspqueue_cpu.c, the CPU side of the packet queues that the host shares with the DSP.
pub mod Consume
pub mod State
pub mod Header
pub mod Position
pub mod Transfer
pub mod Refs
pub mod Write
pub mod Read
pub mod Wakeup
pub mod Emit
pub mod Contents
pub mod Delivery
pub mod Fifo
pub mod Take
pub mod Placed
pub mod Receive
pub mod Exchange
pub mod EdgeCases
pub mod Space
pub mod Time
pub mod Blocking
pub mod Multidomain
pub mod Stats
pub mod EarlyWakeup
mod Tests
