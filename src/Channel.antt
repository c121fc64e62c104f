-- ===== src/Channel.antt =====
-- src/SeussChannel.h and src/SeussChannel.cc: the messages between the hosted front end (Linux) and the
-- native node (EbbRT). The messenger, its buffers and the event queue are EbbRT's.
pub mod Defs
pub mod RoundTrip
pub mod Chained
mod Examples
