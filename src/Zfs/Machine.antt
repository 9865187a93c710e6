-- ===== src/Zfs/Machine.antt =====
-- src/plugins/zfs.c and src/plugins/zfs.h: the plugin as its callers see it. An operation is called with
-- its error cleared; what it returns is only how it ended.
pub mod Words
pub mod Safe
pub mod Sequences
pub mod Reads
pub mod Tests
use libblockdev.Base.{
  ℕ, Option, none, some, List, [], ◌∷◌, Bool, true, false, Bytes, GError, if◌then◌else◌,
}
use libblockdev.Utils.Args.{ExtraArg}
use libblockdev.Zfs.Version.{Plugin}
use libblockdev.Zfs.Caps.{close}
use libblockdev.Zfs.Ops.Pools
use libblockdev.Zfs.Ops.Vdevs
use libblockdev.Zfs.Ops.Datasets
use libblockdev.Zfs.Ops.Snapshots
use libblockdev.Zfs.Ops.Keys
use libblockdev.Zfs.Ops.Zvols
use libblockdev.Zfs.Ops.Trees
use libblockdev.Zfs.Ops.{Env, World, M}

pub data Op : Type 0 where
  pool_destroy : Option Bytes → Bool → Op
  pool_export : Option Bytes → Bool → Op
  pool_scrub_start : Option Bytes → Op
  pool_scrub_stop : Option Bytes → Op
  pool_scrub_pause : Option Bytes → Op
  pool_upgrade : Option Bytes → Op
  pool_history : Option Bytes → Op
  pool_create : Option Bytes → Option (List Bytes) → Option Bytes → Option (List ExtraArg) → Op
  pool_import :
      Option Bytes → Option Bytes → Option (List Bytes) → Bool → Option (List ExtraArg) → Op
  pool_list : Op
  pool_get_info : Option Bytes → Op
  pool_get_property : Option Bytes → Option Bytes → Op
  pool_set_property : Option Bytes → Option Bytes → Option Bytes → Op
  pool_get_properties : Option Bytes → Op
  pool_remove_vdev : Option Bytes → Option Bytes → Op
  pool_attach : Option Bytes → Option Bytes → Option Bytes → Op
  pool_detach : Option Bytes → Option Bytes → Op
  pool_replace : Option Bytes → Option Bytes → Option Bytes → Bool → Op
  pool_online : Option Bytes → Option Bytes → Bool → Op
  pool_offline : Option Bytes → Option Bytes → Bool → Op
  pool_trim_start : Option Bytes → Option Bytes → Op
  pool_trim_stop : Option Bytes → Option Bytes → Op
  pool_clear : Option Bytes → Option Bytes → Op
  pool_add_vdev : Option Bytes → Option (List Bytes) → Option Bytes → Option (List ExtraArg) → Op
  dataset_destroy : Option Bytes → Bool → Bool → Op
  dataset_rename : Option Bytes → Option Bytes → Bool → Bool → Op
  dataset_unmount : Option Bytes → Bool → Op
  dataset_inherit_property : Option Bytes → Option Bytes → Op
  dataset_create : Option Bytes → Option (List ExtraArg) → Op
  dataset_list : Option Bytes → Bool → Op
  dataset_get_info : Option Bytes → Op
  dataset_mount : Option Bytes → Option Bytes → Option (List ExtraArg) → Op
  dataset_get_property : Option Bytes → Option Bytes → Op
  dataset_set_property : Option Bytes → Option Bytes → Option Bytes → Op
  dataset_get_properties : Option Bytes → Op
  snapshot_destroy : Option Bytes → Bool → Op
  snapshot_rollback : Option Bytes → Bool → Bool → Op
  bookmark_create : Option Bytes → Option Bytes → Op
  bookmark_destroy : Option Bytes → Op
  snapshot_promote : Option Bytes → Op
  snapshot_hold : Option Bytes → Option Bytes → Op
  snapshot_release : Option Bytes → Option Bytes → Op
  snapshot_create : Option Bytes → Bool → Option (List ExtraArg) → Op
  snapshot_list : Option Bytes → Bool → Op
  snapshot_clone : Option Bytes → Option Bytes → Option (List ExtraArg) → Op
  bookmark_list : Option Bytes → Op
  encryption_unload_key : Option Bytes → Op
  encryption_load_key : Option Bytes → Option Bytes → Op
  encryption_change_key : Option Bytes → Option Bytes → Option (List ExtraArg) → Op
  encryption_key_status : Option Bytes → Op
  zvol_destroy : Option Bytes → Bool → Bool → Op
  zvol_create : Option Bytes → ℕ → Bool → Option (List ExtraArg) → Op
  zvol_resize : Option Bytes → ℕ → Op
  pool_get_vdevs : Option Bytes → Op
  pool_scrub_status : Option Bytes → Op
  pool_list_importable : Op

-- How a call ends: TRUE or a value, FALSE or NULL, or a use of memory that was freed, behind which
-- nothing is known.
pub data Ending : Type 0 where
  succeeded : Ending
  failed : Ending
  freed_used : Ending

-- The value that an operation returns is dropped.
abbrev pub dropped : {A : Type 0} → World × Option A → World × Ending
dropped (w, none) = (w, failed)
dropped (w, some a) = (w, succeeded)

unfoldable pub discard : {A : Type 0} → M A → World → World × Ending
discard m w = dropped (m w)

-- A value that is not there is a use of freed memory.
abbrev pub judged : {A : Type 0} → World × Option (Option A) → World × Ending
judged (w, none) = (w, failed)
judged (w, some none) = (w, freed_used)
judged (w, some (some a)) = (w, succeeded)

unfoldable pub judge : {A : Type 0} → M (Option A) → World → World × Ending
judge m w = judged (m w)

unfoldable pub perform : Env → Op → World → World × Ending
unfolding discard judge
perform env (Op.pool_destroy name force) = discard (Pools.pool_destroy env name force)
perform env (Op.pool_export name force) = discard (Pools.pool_export env name force)
perform env (Op.pool_scrub_start name) = discard (Pools.pool_scrub_start env name)
perform env (Op.pool_scrub_stop name) = discard (Pools.pool_scrub_stop env name)
perform env (Op.pool_scrub_pause name) = discard (Pools.pool_scrub_pause env name)
perform env (Op.pool_upgrade name) = discard (Pools.pool_upgrade env name)
perform env (Op.pool_history name) = discard (Pools.pool_history env name)
perform env (Op.pool_create name vdevs level extra) =
    discard (Pools.pool_create env name vdevs level extra)
perform env (Op.pool_import name new_name dirs force extra) =
    discard (Pools.pool_import env name new_name dirs force extra)
perform env Op.pool_list = discard (Pools.pool_list env)
perform env (Op.pool_get_info name) = discard (Pools.pool_get_info env name)
perform env (Op.pool_get_property name property) =
    discard (Pools.pool_get_property env name property)
perform env (Op.pool_set_property name property value) =
    discard (Pools.pool_set_property env name property value)
perform env (Op.pool_get_properties name) = discard (Pools.pool_get_properties env name)
perform env (Op.pool_remove_vdev name vdev) = discard (Vdevs.pool_remove_vdev env name vdev)
perform env (Op.pool_attach name existing new) = discard (Vdevs.pool_attach env name existing new)
perform env (Op.pool_detach name vdev) = discard (Vdevs.pool_detach env name vdev)
perform env (Op.pool_replace name old new force) =
    discard (Vdevs.pool_replace env name old new force)
perform env (Op.pool_online name vdev expand) = discard (Vdevs.pool_online env name vdev expand)
perform env (Op.pool_offline name vdev temporary) =
    discard (Vdevs.pool_offline env name vdev temporary)
perform env (Op.pool_trim_start name vdev) = discard (Vdevs.pool_trim_start env name vdev)
perform env (Op.pool_trim_stop name vdev) = discard (Vdevs.pool_trim_stop env name vdev)
perform env (Op.pool_clear name vdev) = discard (Vdevs.pool_clear env name vdev)
perform env (Op.pool_add_vdev name vdevs level extra) =
    discard (Vdevs.pool_add_vdev env name vdevs level extra)
perform env (Op.dataset_destroy name recursive force) =
    discard (Datasets.dataset_destroy env name recursive force)
perform env (Op.dataset_rename name new create_parent force) =
    discard (Datasets.dataset_rename env name new create_parent force)
perform env (Op.dataset_unmount name force) = discard (Datasets.dataset_unmount env name force)
perform env (Op.dataset_inherit_property name property) =
    discard (Datasets.dataset_inherit_property env name property)
perform env (Op.dataset_create name extra) = discard (Datasets.dataset_create env name extra)
perform env (Op.dataset_list parent recursive) =
    discard (Datasets.dataset_list env parent recursive)
perform env (Op.dataset_get_info name) = discard (Datasets.dataset_get_info env name)
perform env (Op.dataset_mount name mountpoint extra) =
    discard (Datasets.dataset_mount env name mountpoint extra)
perform env (Op.dataset_get_property name property) =
    discard (Datasets.dataset_get_property env name property)
perform env (Op.dataset_set_property name property value) =
    discard (Datasets.dataset_set_property env name property value)
perform env (Op.dataset_get_properties name) = discard (Datasets.dataset_get_properties env name)
perform env (Op.snapshot_destroy name recursive) =
    discard (Snapshots.snapshot_destroy env name recursive)
perform env (Op.snapshot_rollback name force destroy_newer) =
    discard (Snapshots.snapshot_rollback env name force destroy_newer)
perform env (Op.bookmark_create snapshot bookmark) =
    discard (Snapshots.bookmark_create env snapshot bookmark)
perform env (Op.bookmark_destroy name) = discard (Snapshots.bookmark_destroy env name)
perform env (Op.snapshot_promote clone) = discard (Snapshots.snapshot_promote env clone)
perform env (Op.snapshot_hold snapshot tag) = discard (Snapshots.snapshot_hold env snapshot tag)
perform env (Op.snapshot_release snapshot tag) =
    discard (Snapshots.snapshot_release env snapshot tag)
perform env (Op.snapshot_create name recursive extra) =
    discard (Snapshots.snapshot_create env name recursive extra)
perform env (Op.snapshot_list dataset recursive) =
    discard (Snapshots.snapshot_list env dataset recursive)
perform env (Op.snapshot_clone snapshot clone extra) =
    discard (Snapshots.snapshot_clone env snapshot clone extra)
perform env (Op.bookmark_list dataset) = discard (Snapshots.bookmark_list env dataset)
perform env (Op.encryption_unload_key dataset) = discard (Keys.encryption_unload_key env dataset)
perform env (Op.encryption_load_key dataset k) = discard (Keys.encryption_load_key env dataset k)
perform env (Op.encryption_change_key dataset k extra) =
    discard (Keys.encryption_change_key env dataset k extra)
perform env (Op.encryption_key_status dataset) = discard (Keys.encryption_key_status env dataset)
perform env (Op.zvol_destroy name recursive force) =
    discard (Zvols.zvol_destroy env name recursive force)
perform env (Op.zvol_create name size sparse extra) =
    discard (Zvols.zvol_create env name size sparse extra)
perform env (Op.zvol_resize name size) = discard (Zvols.zvol_resize env name size)
perform env (Op.pool_get_vdevs name) = discard (Trees.pool_get_vdevs env name)
perform env (Op.pool_scrub_status name) = discard (Trees.pool_scrub_status env name)
perform env Op.pool_list_importable = judge (Trees.pool_list_importable env)

-- What a caller does with the plugin: an operation, a question about the version, closing the plugin.
pub data Event : Type 0 where
  op : Op → Event
  version : Event
  closed : Event

-- The caller passes a fresh error.
abbrev pub fresh : World → World
fresh w = record w { plugin = record (w.plugin) { error = none } }

unfoldable pub close_world : World → World × Ending
unfolding close
close_world w = (record w { plugin = close w.plugin }, succeeded)

unfoldable pub handle : Env → Event → World → World × Ending
unfolding perform close_world discard
handle env (op o) = perform env o
handle env version = discard (Pools.get_zfs_version env)
handle env closed = close_world

unfoldable pub step : Env → Event → World → World × Ending
unfolding handle
step env event w = handle env event (fresh w)

abbrev pub stopped : Ending → Bool
stopped succeeded = false
stopped failed = false
stopped freed_used = true

-- The run ends at a use of freed memory.
unfoldable pub run : Env → List Event → World → World
unfolding step
run env [] w = w
run env (e ∷ events) w =
    let rest = run env events (step env e w).0 in
    if stopped (step env e w).1 then (step env e w).0 else rest
