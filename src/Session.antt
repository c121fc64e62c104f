-- ===== src/Session.antt =====
-- src/InvocationSession.h and src/InvocationSession.cc: one connection from a core to an instance.
-- Promises, the timer, the TCP connection and the event queue are EbbRT's: a handler's calls into them
-- are its result, in order. The clock is an argument, in nanoseconds; 0 is the epoch, which the code
-- takes for a cleared deadline.
pub mod Http
pub mod Defs
pub mod History
pub mod Timer
pub mod Replies
pub mod Setup
mod Examples
