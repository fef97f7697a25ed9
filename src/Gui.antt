-- ===== src/Gui.antt =====
-- src/gui: what the graphical frontend computes, without its widgets.
pub mod Layout
pub mod Rows
pub mod Fallback
pub mod Strings
pub mod Symbols
pub mod Model
pub mod Pane
