-- ===== src/Hot.antt =====
-- src/SeussInvoker.h and src/SeussInvoker.cc, class `seuss::Invoker`: the idle instances that a core
-- keeps for hot starts. Instances live in the instance manager (umm), which is not part of this
-- repository: what it knows is the parameter `known`, and the calls into it are in the results.
pub mod Defs
pub mod Invariant
pub mod RoundTrip
pub mod Reuse
mod Examples
