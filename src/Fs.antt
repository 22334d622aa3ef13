-- ===== src/Fs.antt =====
-- kernel/kernel/fs: the tree of mounts, the nodes of file systems, and the initial ramdisk.
pub mod Names
pub mod Tar
pub mod Nodes
pub mod Vfs
pub mod Initrd
pub mod Devfs
