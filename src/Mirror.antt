-- ===== src/Mirror.antt =====
-- web/internal/mirror: the verified evidence that a registry holds about the images.
pub mod Sbom
pub mod Record
pub mod Vex
pub mod Attached
pub mod Ledger
pub mod Read
pub mod Client
pub mod Listing
mod Tests
