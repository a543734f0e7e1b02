-- ===== src/Formatter/Printer.antt =====
-- crates/luck_formatter/src/printer.rs: laying a document out. `State` is the printer and what it
-- emits, `Expand` the pass over forced breaks, `Fits` the measuring, `Layout` the printing.
pub mod State
pub mod Expand
pub mod Fits
pub mod Reach
pub mod Plain
pub mod Newlines
pub mod Layout
