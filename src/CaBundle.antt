-- ===== src/CaBundle.antt =====
-- bazel/modules/rules_rpm/rpm/tools/ca-bundle/main.go: the PEM bundle of the roots that a trust
-- source anchors for servers.
pub mod Value
pub mod Object
pub mod Anchors
pub mod Tar
mod Tests
