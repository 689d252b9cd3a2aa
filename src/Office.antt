-- ===== src/Office.antt =====
-- utils/filemon-office.ts: the names of spreadsheet cells, and the readers of delimited text, of
-- workbooks, of XML invoices and of documents, over JSZip and DOMParser.
pub mod Cells
pub mod Delimited
pub mod References
pub mod Sheet
pub mod Dom
pub mod Digits
pub mod Workbook
pub mod WorkbookBounds
pub mod Contract
pub mod External
pub mod Cfdi
pub mod Documents
pub mod Kept
pub mod Soundness
mod Tests
mod WorkbookTests
mod DocumentTests
