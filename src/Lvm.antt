-- ===== src/Lvm.antt =====
-- src/plugins/lvm: the plugin that runs `lvm` (lvm.c), and what it shares with the one on D-Bus
-- (lvm-common.c).
pub mod Calc
pub mod Table
pub mod Data
pub mod Modes
pub mod Config
pub mod Ops
pub mod Safety
pub mod Machine
pub mod Tests
