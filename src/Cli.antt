-- ===== src/Cli.antt =====
-- src/main.cpp and src/cli: the command line.
pub mod HexDump
pub mod Arguments
pub mod Outputs
