-- ===== src/Kernel.antt =====
-- Parts of the kernel that other parts call: pipe.c, file.c, bio.c, string.c and syscall.c, in Operating
-- system/file system/xv6-public. Locks are held from end to end of the functions below, so each is one
-- step; a sleep ends the step.
pub mod Pipe
pub mod Files
pub mod Buffers
pub mod Memory
pub mod Arguments
pub mod Pages
mod Tests
mod MemoryTests
