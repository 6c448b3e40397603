-- ===== src/Syspage.antt =====
-- syspage.c: the page of boot data that the loader builds on its heap for the kernel.
pub mod State
pub mod Align
pub mod Alloc
pub mod Entries
pub mod Maps
pub mod Resolve
pub mod Progs
