-- ===== src/Startup.antt =====
-- src/hosted/main.cc, src/seuss.cc and `process_program_options` of src/openwhisk/openwhisk.cc: how the front end
-- starts.
pub mod Defs
pub mod Notify
pub mod Limits
pub mod Configured
mod Examples
