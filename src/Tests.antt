-- ===== src/Tests.antt =====
-- Concrete runs of the code, and instances of the theorems.
pub mod Samples
pub mod Decoding
pub mod Http
pub mod Pools
pub mod Wire
pub mod Bridges
pub mod AsyncPools
pub mod Sharing
pub mod Requests
pub mod Building
pub mod Clients
pub mod Sessions
pub mod Serving
pub mod Stubs
pub mod Faults
pub mod Reports
pub mod Units
