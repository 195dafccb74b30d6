-- ===== src/Results.antt =====
-- src/results: the CSV file and the printed summary.
pub mod CsvWriter
pub mod SummaryPrinter
