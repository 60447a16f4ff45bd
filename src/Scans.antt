-- ===== src/Scans.antt =====
-- web/internal/directory/scan.go, with the architectures of sbom.go: a vulnerability scan as the
-- report that a page shows.
pub mod Arch
pub mod Severity
pub mod Report
pub mod Table
mod Tests
