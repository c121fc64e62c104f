-- ===== src/Root.antt =====
-- src/SeussInvoker.h and src/SeussInvoker.cc, class `seuss::InvokerRoot`: the work queue that all cores
-- share and the cache of function snapshots. The spin lock makes `AddWork` and `GetWork` atomic, so
-- each is one function from state to state. A snapshot (`umm::UmSV *`) is its address; `delete` is in
-- the result, as the list of addresses that a call deletes. `kassert` is taken to be active.
pub mod Defs
pub mod Queue
pub mod History
pub mod Wakeups
pub mod Snapshots
mod Examples
