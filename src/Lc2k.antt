-- ===== src/Lc2k.antt =====
-- The LC-2K tools of computer architecture: the assembler and simulator of project1, and the
-- pipeline simulator of project2.
pub mod Simulator
pub mod Assembler
pub mod Encoding
pub mod Labels
pub mod FirstPass
pub mod SecondPass
pub mod Execution
pub mod Output
pub mod Pipeline
pub mod StoredWords
pub mod Toolchain
pub mod Semantics
mod Tests
mod Machines
