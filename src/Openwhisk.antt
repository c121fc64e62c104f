-- ===== src/Openwhisk.antt =====
-- src/openwhisk: the messages from and to OpenWhisk, and the code of actions from its database.
pub mod Msg
pub mod Json
pub mod Reader
pub mod Grammar
pub mod Numbers
pub mod Document
pub mod RoundTrip
pub mod Completed
pub mod Couchdb
pub mod Cache
mod Examples
mod Runs
