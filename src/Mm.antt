-- ===== src/Mm.antt =====
-- kernel/kernel/mm: the memory managers.
pub mod Pmm
pub mod Paging
pub mod Kmalloc
