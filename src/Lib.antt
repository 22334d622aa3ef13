-- ===== src/Lib.antt =====
-- Verification of medusaOS: the memory management of the kernel, its containers, the initial
-- ramdisk and the file systems around it, the tables, clocks, buses, screen and ELF loader of
-- its i386 part, the CHIP-8 emulator, the keyboard tables, base64, and the character classes,
-- strings and numbers of its C library.
--
-- The parts and the files that model them:
--   Prelude           the names that all files share, the results of code that can stop
--                     (`Outcome`), and the lemmas on bits and lists.
--   Misc              kernel/include/kernel/misc.h and libc/math/math.c: 32-bit words,
--                     `align_to`, `divide_up`.
--   Mm/Pmm            kernel/kernel/mm/pmm.c: the bitmap of physical pages. `Pmm` is its static
--                     variables; `init_pmm` reads the multiboot2 tags (kernel/kernel/multiboot2.c).
--   Mm/Paging         kernel/kernel/mm/paging.c: the page tables behind the recursive mapping,
--                     which take their frames from Mm/Pmm, each of them a frame of its own;
--                     the frames of the tables that are there count as in use.
--   Mm/Kmalloc        kernel/kernel/mm/kmalloc.c: the chain of blocks of the kernel heap, whose
--                     first allocation takes pages from Mm/Pmm and maps them with Mm/Paging.
--   DataStructures    kernel/kernel/data_structures: list.c (Slots), stack.c and linked_list.c
--                     (Nodes), on memory from `kmalloc`, where memory that was not written can
--                     be told from memory that was; hashtable.c (Hashtable), on the list.
--   Fs/Names          the search for a name that the file systems share.
--   Fs/Tar, Initrd    kernel/kernel/fs/initrd.c: the walk over the headers of the archive (Tar),
--                     and the nodes made of them with their functions (Initrd).
--   Fs/Nodes, Vfs     kernel/kernel/fs/vfs.c and kernel/include/kernel/vfs.h: the calls through a
--                     node's pointers and the search, for any file system that fills `Calls`
--                     (Nodes); the paths and the tree of mounts (Vfs).
--   Fs/Devfs          kernel/kernel/fs/devfs.c and pipe.c: the devices as files.
--   Arch/Descriptors  kernel/arch/i386/descriptor_tables.c, tss.c and pic.c.
--   Arch/Clock        kernel/arch/i386/pit.c and rtc.c.
--   Arch/Pci          kernel/arch/i386/pci.c; what the bus answers is a parameter.
--   Arch/Terminal     kernel/arch/i386/tty.c and vga.h: the text screen and its cursor.
--   Arch/Elf          kernel/arch/i386/elf.c: the checks and the relocation of a file in memory.
--   Chip8             kernel/kernel/chip8/emulator.c: the instructions (Execute), and the cycle,
--                     the main loop and the loading (Cycle).
--   Keyboard          kernel/arch/i386/keyboard.c, and the key handler of the emulator.
--   Base64            kernel/kernel/tools/base64.c.
--   Libc/Ctype        libc/ctype/ctype.c and libc/include/ctype.h.
--   Libc/Strings      libc/string: the functions that read and join strings.
--   Libc/Numbers      libc/string/append.c, reverse.c, int_to_ascii.c and hex_to_ascii.c, and
--                     libc/stdlib/strtol.c, atoi.c, rand.c and srand.c.
--   Libc/Tokens       libc/string/strtok.c.
--
-- Each static variable or structure of the C code is a field of a record, each function one
-- function from the state before to the state after, under its name in the source. Numbers are
-- natural numbers and the wrap-around of 8, 16 and 32 bits is written out (`u8`, `u16`, `u32`,
-- `sub32`). `abort` is the kernel's abort(), and `fault` an access that C leaves undefined: a
-- null pointer, an index past an array, memory that was never written, and a page table at the frame
-- 0, which stands for no frame.
--
-- Loops are recursion on the number of turns left where the source counts, and on a list where
-- it walks one. The loops without a count take fuel: the walks over linked nodes, for which more
-- turns than there are nodes are enough, and the main loop of the emulator, for which one is; the
-- walks over an archive, the search of the nodes and the probes of the hash table, where `none` is
-- the result out of turns and the theorems say how many are enough. Ten turns are enough for the
-- digits of a 32-bit number. The reading of the clock takes one turn for each reading. The
-- loops of FX55 and FX65 have 17 turns, since the 17th leaves the loop or is past the registers.
--
-- Not modelled: the log, whose calls have no state here; the instructions that load the tables
-- and the ports other than those above; the framebuffer terminal, the window manager, the tasks,
-- the interrupt handlers and the other drivers, ext2 and the files in memory, the formatted
-- output and the mapping of an ELF file that is to run, which are not translated yet;
-- the copies of other projects.
pub mod Prelude
pub mod Misc
pub mod Mm
pub mod Libc
pub mod DataStructures
pub mod Fs
pub mod Chip8
pub mod Keyboard
pub mod Arch
pub mod Base64
