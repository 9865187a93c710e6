-- ===== src/Zfs.antt =====
-- src/plugins/zfs.c: the names it accepts, the version of the tools and what depends on it, and the
-- operations on whole pools.
pub mod Names
pub mod Pool
pub mod Version
pub mod Caps
pub mod Reports
pub mod Importable
pub mod VdevTree
pub mod Scrub
pub mod Ops
pub mod Safety
pub mod Machine
pub mod Tests
