-- ===== src/Collectors.antt =====
-- homeinfra/collectors.py: which commands may run (Commands), the known hosts (HostKeys), the pauses
-- between attempts (Retry), the
-- arguments of a connection (Connect), and the collectors over SSH and over fixed outputs (Execute).
pub mod Commands
pub mod HostKeys
pub mod Retry
pub mod Connect
pub mod Execute
