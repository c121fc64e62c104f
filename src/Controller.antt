-- ===== src/Controller.antt =====
-- src/SeussController.h and src/SeussController.cc: the front end that schedules activations on a node
-- and answers OpenWhisk. The mutex makes each change of the record map atomic. A promise is a number
-- that the caller of `ScheduleActivation` picks; the clock counts nanoseconds.
pub mod Defs
pub mod Records
pub mod History
pub mod Outcome
pub mod Nodes
pub mod Times
mod Examples
