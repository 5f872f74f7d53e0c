-- ===== src/Tests.antt =====
-- Concrete inputs, and the theorems at them.
pub mod Fixtures
pub mod Codecs
pub mod Signalling
pub mod Calls
pub mod Sessions
pub mod Descriptions
pub mod Servers
pub mod Media
pub mod Processes
pub mod Timers
pub mod Order
