-- ===== src/Copyright.antt =====
-- oci/debian/copyright/copyright.go: the licence that a Debian package declares for itself. A
-- document is its bytes, at most `max_copyright_bytes` of which are read; texts are ASCII where
-- spaces are trimmed or letters lowered.
pub mod Parse
pub mod Spdx
pub mod Stanza
mod Tests
