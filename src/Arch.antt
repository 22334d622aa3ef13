-- ===== src/Arch.antt =====
-- kernel/arch/i386: the descriptor tables, the clocks, the PCI bus and the text terminal.
pub mod Descriptors
pub mod Clock
pub mod Pci
pub mod Terminal
pub mod Elf
