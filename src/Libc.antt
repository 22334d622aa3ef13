-- ===== src/Libc.antt =====
-- libc: the parts of the C library that the kernel links.
pub mod Ctype
pub mod Strings
pub mod Numbers
pub mod Tokens
