-- ===== src/Tags.antt =====
-- web/internal/directory/versions.go: the published tags of an image family, grouped by the build
-- they name. A digest, a tag and an architecture are texts, a time is a number; a Go map is an
-- association list. The URLs that the handlers set are not part of it.
pub mod Order
pub mod Grouping
pub mod Counts
pub mod Latest
mod Tests
