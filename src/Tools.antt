-- ===== src/Tools.antt =====
-- tools/: the command line programs around the server. Each is a function from `os.Args` (the
-- program's name first) and what it reads to what it prints, or a panic.
pub mod Command
pub mod Signature
pub mod Inversion
pub mod LeftpadInt
pub mod Keccak256Hex
pub mod SignStdin
pub mod MakePermit
