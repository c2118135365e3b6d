-- ===== src/Storage/Sata.antt =====
-- src/Storage/SATA.cpp and header/Storage/SATA.hpp: the disks behind an AHCI controller. `S` is the
-- state of the disk and of its port.
pub mod Command
pub mod Controller
pub mod Device
pub mod Port
pub mod Start
pub mod Transfer
mod Tests
use crack_os.Language.Bytes.{Bytes}

-- The memory of the kernel, in which the disk reads commands and data and writes data, and the
-- disk.
pub record Machine (S : Type 0) : Type 0 where
  pub memory : Bytes
  pub disk : S
