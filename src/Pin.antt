-- ===== src/Pin.antt =====
-- bazel/modules/rules_rpm/rpm/tools/pin/main.go: a package list is resolved against an RPM
-- repository and written as a lockfile. Evr has the version strings, Text the command line's texts,
-- Closure the dependency walk, Fetch the retries and Resolve the whole.
pub mod Evr
pub mod Text
pub mod Provider
pub mod Closure
pub mod Fetch
pub mod Lock
pub mod Resolve
mod Tests
