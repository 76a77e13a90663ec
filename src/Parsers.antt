-- ===== src/Parsers.antt =====
-- homeinfra/parsers.py: the pure functions that turn the output of commands into values. The first
-- child modules hold what they use of Python's text and numbers, the others a family of commands.
pub mod Text
pub mod Numbers
pub mod Tables
pub mod System
pub mod Cpu
pub mod Network
pub mod Links
pub mod Disks
pub mod Raid
pub mod Zfs
pub mod Btrfs
pub mod Usage
pub mod Proxmox
