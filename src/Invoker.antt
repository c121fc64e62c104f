-- ===== src/Invoker.antt =====
-- src/SeussInvoker.h and src/SeussInvoker.cc, class `seuss::Invoker`: what a core does with an
-- invocation. Its hot-start cache is in Hot, the queue and the snapshots of all cores in Root.
pub mod Defs
pub mod Init
pub mod Bootstrap
pub mod Ports
pub mod Concurrency
pub mod Callbacks
pub mod Starts
pub mod Events
pub mod Fallback
pub mod Served
pub mod Attempts
pub mod Kept
pub mod Answered
pub mod Life
pub mod Reused
pub mod Again
pub mod Repeated
pub mod Booted
pub mod WarmedUp
pub mod Poke
mod Examples
mod Runs
mod ReuseRuns
mod BootRuns
