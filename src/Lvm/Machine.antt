-- ===== src/Lvm/Machine.antt =====
-- src/plugins/lvm/lvm.c and src/plugins/lvm/lvm.h: the plugin as its callers see it. An operation is called with
-- its error cleared; what it returns is only whether it succeeded.
pub mod Plans
pub mod Safe
pub mod Completes
pub mod Slots
pub mod Fits
pub mod Sequences
pub mod Tests
use libblockdev.Base.{
  ℕ, Option, none, some, List, [], ◌∷◌, Bool, true, false, Bytes, Result, ok, err,
}
use libblockdev.Utils.Args.{ExtraArg}
use libblockdev.Lvm.Config.{Globals, set_global_config, set_devices_filter}
use libblockdev.Lvm.Modes.{CacheMode, WritePolicy}
use libblockdev.Lvm.Ops.{World, Env, M, checked}
use libblockdev.Lvm.Ops.Volumes
use libblockdev.Lvm.Ops.Logical
use libblockdev.Lvm.Ops.Thin
use libblockdev.Lvm.Ops.Caches
use libblockdev.Lvm.Ops.Vdo
use libblockdev.Lvm.Ops.Queries
use libblockdev.Lvm.Ops.Columns
use libblockdev.Lvm.Ops.Lists

pub data Op : Type 0 where
  pvcreate : Bytes → ℕ → ℕ → Option (List ExtraArg) → Op
  pvresize : Bytes → ℕ → Option (List ExtraArg) → Op
  pvremove : Bytes → Option (List ExtraArg) → Op
  pvmove : Bytes → Option Bytes → Option (List ExtraArg) → Op
  pvscan : Option Bytes → Bool → Option (List ExtraArg) → Op
  add_pv_tags : Bytes → List Bytes → Op
  delete_pv_tags : Bytes → List Bytes → Op
  vgcreate : Bytes → Option (List Bytes) → ℕ → Option (List ExtraArg) → Op
  vgremove : Bytes → Option (List ExtraArg) → Op
  vgrename : Bytes → Bytes → Option (List ExtraArg) → Op
  vgactivate : Bytes → Option (List ExtraArg) → Op
  vgdeactivate : Bytes → Option (List ExtraArg) → Op
  vgextend : Bytes → Bytes → Option (List ExtraArg) → Op
  vgreduce : Bytes → Option Bytes → Option (List ExtraArg) → Op
  add_vg_tags : Bytes → List Bytes → Op
  delete_vg_tags : Bytes → List Bytes → Op
  vglock_start : Bytes → Option (List ExtraArg) → Op
  vglock_stop : Bytes → Option (List ExtraArg) → Op
  lvcreate : Bytes → Bytes → ℕ → Option Bytes → Option (List Bytes) → Option (List ExtraArg) → Op
  lvremove : Bytes → Bytes → Bool → Option (List ExtraArg) → Op
  lvrename : Bytes → Bytes → Bytes → Option (List ExtraArg) → Op
  lvresize : Bytes → Bytes → ℕ → Option (List ExtraArg) → Op
  lvrepair : Bytes → Bytes → Option (List Bytes) → Option (List ExtraArg) → Op
  lvactivate : Bytes → Bytes → Bool → Bool → Option (List ExtraArg) → Op
  lvdeactivate : Bytes → Bytes → Option (List ExtraArg) → Op
  lvsnapshotcreate : Bytes → Bytes → Bytes → ℕ → Option (List ExtraArg) → Op
  lvsnapshotmerge : Bytes → Bytes → Option (List ExtraArg) → Op
  add_lv_tags : Bytes → Bytes → List Bytes → Op
  delete_lv_tags : Bytes → Bytes → List Bytes → Op
  thpoolcreate : Bytes → Bytes → ℕ → ℕ → ℕ → Option Bytes → Option (List ExtraArg) → Op
  thlvcreate : Bytes → Bytes → Bytes → ℕ → Option (List ExtraArg) → Op
  thsnapshotcreate : Bytes → Bytes → Bytes → Option Bytes → Option (List ExtraArg) → Op
  cache_attach : Bytes → Bytes → Bytes → Option (List ExtraArg) → Op
  cache_detach : Bytes → Bytes → Bool → Option (List ExtraArg) → Op
  cache_create_pool : Bytes → Bytes → ℕ → ℕ → CacheMode → ℕ → Option (List Bytes) → Op
  cache_create_cached_lv :
      Bytes → Bytes → ℕ → ℕ → ℕ → CacheMode → ℕ → Option (List Bytes) → Option (List Bytes) → Op
  writecache_attach : Bytes → Bytes → Bytes → Option (List ExtraArg) → Op
  writecache_detach : Bytes → Bytes → Bool → Option (List ExtraArg) → Op
  writecache_create_cached_lv :
      Bytes → Bytes → ℕ → ℕ → Option (List Bytes) → Option (List Bytes) → Op
  thpool_convert : Bytes → Bytes → Bytes → Option Bytes → Option (List ExtraArg) → Op
  cache_pool_convert : Bytes → Bytes → Bytes → Option Bytes → Option (List ExtraArg) → Op
  vdo_pool_create :
      Bytes
      → Bytes
      → Option Bytes
      → ℕ
      → ℕ
      → ℕ
      → Bool
      → Bool
      → WritePolicy
      → Option (List ExtraArg)
      → Op
  vdo_pool_convert :
      Bytes → Bytes → Option Bytes → ℕ → ℕ → Bool → Bool → WritePolicy → Option (List ExtraArg) → Op
  vdo_enable_compression : Bytes → Bytes → Option (List ExtraArg) → Op
  vdo_enable_deduplication : Bytes → Bytes → Option (List ExtraArg) → Op
  vdo_disable_compression : Bytes → Bytes → Option (List ExtraArg) → Op
  vdo_disable_deduplication : Bytes → Bytes → Option (List ExtraArg) → Op
  pvinfo : Bytes → Op
  pvs : Op
  vginfo : Bytes → Op
  vgs : Op
  lvorigin : Bytes → Bytes → Op
  thlvpoolname : Bytes → Bytes → Op
  vdolvpoolname : Bytes → Bytes → Op
  cache_pool_name : Bytes → Bytes → Op
  lvinfo : Bytes → Bytes → Op
  lvinfo_tree : Bytes → Bytes → Op
  lvs : Option Bytes → Op
  lvs_tree : Option Bytes → Op
  vdo_info : Bytes → Bytes → Op
  vdo_resize : Bytes → Bytes → ℕ → Option (List ExtraArg) → Op
  vdo_pool_resize : Bytes → Bytes → ℕ → Option (List ExtraArg) → Op

-- The value that an operation returns is dropped.
abbrev pub dropped : {A : Type 0} → World × Option A → World × Option (Unit {0})
dropped (w, none) = (w, none)
dropped (w, some a) = (w, some tt)

unfoldable pub discard : {A : Type 0} → M A → M (Unit {0})
discard m w = dropped (m w)

unfoldable pub perform : Env → Op → M (Unit {0})
unfolding discard
perform env (Op.pvcreate device data_alignment metadata_size extra) =
    Volumes.pvcreate env device data_alignment metadata_size extra
perform env (Op.pvresize device size extra) = Volumes.pvresize env device size extra
perform env (Op.pvremove device extra) = Volumes.pvremove env device extra
perform env (Op.pvmove src dest extra) = Volumes.pvmove env src dest extra
perform env (Op.pvscan device update_cache extra) = Volumes.pvscan env device update_cache extra
perform env (Op.add_pv_tags device tags) = Volumes.add_pv_tags env device tags
perform env (Op.delete_pv_tags device tags) = Volumes.delete_pv_tags env device tags
perform env (Op.vgcreate name pv_list pe_size extra) =
    Volumes.vgcreate env name pv_list pe_size extra
perform env (Op.vgremove vg_name extra) = Volumes.vgremove env vg_name extra
perform env (Op.vgrename old_vg_name new_vg_name extra) =
    Volumes.vgrename env old_vg_name new_vg_name extra
perform env (Op.vgactivate vg_name extra) = Volumes.vgactivate env vg_name extra
perform env (Op.vgdeactivate vg_name extra) = Volumes.vgdeactivate env vg_name extra
perform env (Op.vgextend vg_name device extra) = Volumes.vgextend env vg_name device extra
perform env (Op.vgreduce vg_name device extra) = Volumes.vgreduce env vg_name device extra
perform env (Op.add_vg_tags vg_name tags) = Volumes.add_vg_tags env vg_name tags
perform env (Op.delete_vg_tags vg_name tags) = Volumes.delete_vg_tags env vg_name tags
perform env (Op.vglock_start vg_name extra) = Volumes.vglock_start env vg_name extra
perform env (Op.vglock_stop vg_name extra) = Volumes.vglock_stop env vg_name extra
perform env (Op.lvcreate vg_name lv_name size type pv_list extra) =
    Logical.lvcreate env vg_name lv_name size type pv_list extra
perform env (Op.lvremove vg_name lv_name force extra) =
    Logical.lvremove env vg_name lv_name force extra
perform env (Op.lvrename vg_name lv_name new_name extra) =
    Logical.lvrename env vg_name lv_name new_name extra
perform env (Op.lvresize vg_name lv_name size extra) =
    Logical.lvresize env vg_name lv_name size extra
perform env (Op.lvrepair vg_name lv_name pv_list extra) =
    Logical.lvrepair env vg_name lv_name pv_list extra
perform env (Op.lvactivate vg_name lv_name ignore_skip shared extra) =
    Logical.lvactivate env vg_name lv_name ignore_skip shared extra
perform env (Op.lvdeactivate vg_name lv_name extra) = Logical.lvdeactivate env vg_name lv_name extra
perform env (Op.lvsnapshotcreate vg_name origin_name snapshot_name size extra) =
    Logical.lvsnapshotcreate env vg_name origin_name snapshot_name size extra
perform env (Op.lvsnapshotmerge vg_name snapshot_name extra) =
    Logical.lvsnapshotmerge env vg_name snapshot_name extra
perform env (Op.add_lv_tags vg_name lv_name tags) = Logical.add_lv_tags env vg_name lv_name tags
perform env (Op.delete_lv_tags vg_name lv_name tags) =
    Logical.delete_lv_tags env vg_name lv_name tags
perform env (Op.thpoolcreate vg_name lv_name size md_size chunk_size profile extra) =
    Thin.thpoolcreate env vg_name lv_name size md_size chunk_size profile extra
perform env (Op.thlvcreate vg_name pool_name lv_name size extra) =
    Thin.thlvcreate env vg_name pool_name lv_name size extra
perform env (Op.thsnapshotcreate vg_name origin_name snapshot_name pool_name extra) =
    Thin.thsnapshotcreate env vg_name origin_name snapshot_name pool_name extra
perform env (Op.cache_attach vg_name data_lv cache_pool_lv extra) =
    Caches.cache_attach env vg_name data_lv cache_pool_lv extra
perform env (Op.cache_detach vg_name cached_lv destroy extra) =
    Caches.cache_detach env vg_name cached_lv destroy extra
perform env (Op.cache_create_pool vg_name pool_name pool_size md_size mode flags fast_pvs) =
    Caches.cache_create_pool env vg_name pool_name pool_size md_size mode flags fast_pvs
perform env
      (Op.cache_create_cached_lv vg_name lv_name data_size cache_size md_size mode flags slow_pvs
        fast_pvs) =
    Caches.cache_create_cached_lv env vg_name lv_name data_size cache_size md_size mode flags
      slow_pvs fast_pvs
perform env (Op.writecache_attach vg_name data_lv cache_lv extra) =
    Caches.writecache_attach env vg_name data_lv cache_lv extra
perform env (Op.writecache_detach vg_name cached_lv destroy extra) =
    Caches.writecache_detach env vg_name cached_lv destroy extra
perform env
      (Op.writecache_create_cached_lv vg_name lv_name data_size cache_size slow_pvs fast_pvs) =
    Caches.writecache_create_cached_lv env vg_name lv_name data_size cache_size slow_pvs fast_pvs
perform env (Op.thpool_convert vg_name data_lv metadata_lv name extra) =
    Caches.thpool_convert env vg_name data_lv metadata_lv name extra
perform env (Op.cache_pool_convert vg_name data_lv metadata_lv name extra) =
    Caches.cache_pool_convert env vg_name data_lv metadata_lv name extra
perform env
      (Op.vdo_pool_create vg_name lv_name pool_name data_size virtual_size index_memory compression
        deduplication policy extra) =
    Vdo.vdo_pool_create env vg_name lv_name pool_name data_size virtual_size index_memory
      compression deduplication policy extra
perform env
      (Op.vdo_pool_convert vg_name pool_lv name virtual_size index_memory compression deduplication
        policy extra) =
    Vdo.vdo_pool_convert env vg_name pool_lv name virtual_size index_memory compression
      deduplication policy extra
perform env (Op.vdo_enable_compression vg_name pool_name extra) =
    Vdo.vdo_enable_compression env vg_name pool_name extra
perform env (Op.vdo_enable_deduplication vg_name pool_name extra) =
    Vdo.vdo_enable_deduplication env vg_name pool_name extra
perform env (Op.vdo_disable_compression vg_name pool_name extra) =
    Vdo.vdo_disable_compression env vg_name pool_name extra
perform env (Op.vdo_disable_deduplication vg_name pool_name extra) =
    Vdo.vdo_disable_deduplication env vg_name pool_name extra
perform env (Op.pvinfo device) = discard (Queries.pvinfo env device)
perform env Op.pvs = discard (Queries.pvs env)
perform env (Op.vginfo vg_name) = discard (Queries.vginfo env vg_name)
perform env Op.vgs = discard (Queries.vgs env)
perform env (Op.lvorigin vg_name lv_name) = discard (Columns.lvorigin env vg_name lv_name)
perform env (Op.thlvpoolname vg_name lv_name) = discard (Columns.thlvpoolname env vg_name lv_name)
perform env (Op.vdolvpoolname vg_name lv_name) = discard (Columns.vdolvpoolname env vg_name lv_name)
perform env (Op.cache_pool_name vg_name cached_lv) =
    discard (Columns.cache_pool_name env vg_name cached_lv)
perform env (Op.lvinfo vg_name lv_name) = discard (Queries.lvinfo env vg_name lv_name)
perform env (Op.lvinfo_tree vg_name lv_name) = discard (Queries.lvinfo_tree env vg_name lv_name)
perform env (Op.lvs vg_name) = discard (Lists.lvs env vg_name)
perform env (Op.lvs_tree vg_name) = discard (Lists.lvs_tree env vg_name)
perform env (Op.vdo_info vg_name lv_name) = discard (Lists.vdo_info env vg_name lv_name)
perform env (Op.vdo_resize vg_name lv_name size extra) =
    Lists.vdo_resize env vg_name lv_name size extra
perform env (Op.vdo_pool_resize vg_name pool_name size extra) =
    Lists.vdo_pool_resize env vg_name pool_name size extra

-- What a caller does with the plugin: an operation, or a change of the configuration. Whether devices
-- files are supported is a part of the second change.
pub data Event : Type 0 where
  op : Op → Event
  set_config : Option Bytes → Event
  set_devices : Result (Unit {0}) → Option (List Bytes) → Event

-- The caller passes a fresh error.
abbrev pub fresh : World → World
fresh w = record w { error = none }

abbrev pub taken : World → Result Globals → World × Option (Unit {0})
taken w (ok g) = (record w { globals = g }, some tt)
taken w (err e) = (record w { error = some e }, none)

unfoldable pub handle : Env → Event → M (Unit {0})
unfolding perform set_global_config set_devices_filter
handle env (op o) w = perform env o w
handle env (set_config new_config) w = taken w (ok (set_global_config new_config w.globals))
handle env (set_devices avail devices) w = taken w (set_devices_filter avail devices w.globals)

unfoldable pub run : Env → List Event → World → World
unfolding handle
run env [] w = w
run env (e ∷ events) w = run env events (handle env e (fresh w)).0
