-- ===== src/Formatter.antt =====
-- crates/luck_formatter: the document algebra, the printer that lays a document out, and the
-- spelling of numbers.
pub mod Ir
pub mod Buffer
pub mod Numbers
pub mod Printer
