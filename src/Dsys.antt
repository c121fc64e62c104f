-- ===== src/Dsys.antt =====
-- src/dsys: the settings of the native instances, their allocation, and the list of members.
pub mod Settings
pub mod Order
pub mod MemberSet
pub mod Difference
pub mod Changes
pub mod Address
pub mod Dotted
pub mod Allocation
pub mod CommandLine
pub mod Limits
mod Examples
