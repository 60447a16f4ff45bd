-- ===== src/Extract.antt =====
-- bazel/modules/rules_rpm/rpm/tools/rpm-extract/main.go: one RPM's payload as a tar.
pub mod Paths
pub mod Payload
mod Tests
