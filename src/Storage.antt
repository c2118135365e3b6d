-- ===== src/Storage.antt =====
-- Storage of the kernel (src/Storage, header/Storage).
pub mod Filesystem
pub mod Partition
pub mod Devices
pub mod Ext4
pub mod Sata
