-- ===== src/Cores.antt =====
-- The cores of a node between them: pokes that wait, invocations under way, and the work queue that all
-- cores share (`Invoker::Queue`, `Invoker::Poke` and `Invoker::Invoke` of src/SeussInvoker.cc). An invocation that fails
-- stops the node, and has no event here.
pub mod Defs
pub mod Alive
pub mod Drain
pub mod Alone
pub mod Apart
pub mod Detail
mod Examples
