-- ===== src/Tests.antt =====
-- Concrete libraries, a server and a machine, and the theorems applied to them.
pub mod Fixtures
pub mod Documents
pub mod Machines
pub mod Stores
pub mod Network
pub mod Releases
pub mod Builds
pub mod Jit
pub mod Loading
pub mod Failover
pub mod Publishing
pub mod Building
pub mod Creating
pub mod Starting
pub mod Keys
pub mod Sound
