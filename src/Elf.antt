-- ===== src/Elf.antt =====
-- oci/tools/elfneeds/main.go: every ELF in an image root resolves what it loads.
pub mod Path
pub mod Root
pub mod Needs
pub mod Check
mod Tests
