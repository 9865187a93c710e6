-- ===== src/Zfs/Safety.antt =====
-- The arrays that the operations of src/plugins/zfs.c run, and when they run one.
pub mod Shape
pub mod Rules
pub mod Steps
pub mod Probes
pub mod Vdevs
pub mod Pools
pub mod Datasets
pub mod Snapshots
pub mod Zvols
pub mod Keys
pub mod Trees
