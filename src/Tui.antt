-- ===== src/Tui.antt =====
-- src/tui: what the terminal frontend computes, without its drawing.
pub mod Syntax
pub mod Tokens
pub mod Colours
pub mod Search
pub mod Rows
