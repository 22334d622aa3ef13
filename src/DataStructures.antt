-- ===== src/DataStructures.antt =====
-- kernel/kernel/data_structures: the containers of the kernel.
pub mod Slots
pub mod Nodes
pub mod Hashtable
