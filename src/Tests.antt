-- ===== src/Tests.antt =====
-- Concrete runs of the code, at which the theorems are applied.
pub mod Toy
pub mod Streams
pub mod Texts
pub mod Payloads
pub mod Requests
pub mod Servers
pub mod Phones
pub mod Sessions
pub mod Users
pub mod Tools
pub mod Commands
pub mod Transfers
pub mod Disks
pub mod Networks
pub mod Copies
pub mod Drives
pub mod Locks
pub mod Starts
pub mod Daemons
