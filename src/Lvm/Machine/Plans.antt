-- ===== src/Lvm/Machine/Plans.antt =====
-- What each operation of src/plugins/lvm/lvm.c is to run: the arrays in order, where all goes well.
use libblockdev.Base.{
  ℕ, Option, none, some, List, [], ◌∷◌, ◌++◌, true, false, Bytes, Result, ok, err, codes,
}
use libblockdev.Utils.Args.{ExtraArg}
use libblockdev.Utils.Commands.{Argv}
use libblockdev.Lvm.Config.{Globals}
use libblockdev.Lvm.Modes.{CacheMode, cache_get_mode_str, WritePolicy, get_vdo_write_policy_str}
use libblockdev.Lvm.Ops.{Env, Call, lvm_call, slots_for, spec, optional}
use libblockdev.Lvm.Ops.Queries.{pv_args, vg_args, lv_args, lv_columns, tree_columns}
use libblockdev.Lvm.Ops.Columns.{column_args}
use libblockdev.Lvm.Ops.Lists.{vdo_columns}
use libblockdev.Lvm.Ops.Volumes.{
  add_pv_tags_args, add_vg_tags_args, delete_pv_tags_args, delete_vg_tags_args, pvcreate_args,
  pvmove_args, pvremove_args, pvresize_args, pvscan_args, vgactivate_args, vgcreate_args,
  vgdeactivate_args, vgextend_args, vglock_start_args, vglock_stop_args, vgreduce_args,
  vgremove_args, vgrename_args,
}
use libblockdev.Lvm.Ops.Logical.{
  add_lv_tags_args, delete_lv_tags_args, lvactivate_args, lvcreate_args, lvdeactivate_args,
  lvremove_args, lvrename_args, lvrepair_args, lvresize_args, lvsnapshotcreate_args,
  lvsnapshotmerge_args, fs_option,
}
use libblockdev.Lvm.Ops.Thin.{thlvcreate_args, thpoolcreate_args, thsnapshotcreate_args}
use libblockdev.Lvm.Ops.Caches.{
  cache_attach_args, cache_detach_args, cache_pool_args, cache_pool_convert_args,
  thpool_convert_args, writecache_args, get_lv_type_from_flags, md_size_of,
}
use libblockdev.Lvm.Ops.Vdo.{vdo_pool_convert_args, vdo_pool_create_args, vdo_set_args, vdo_config}
use libblockdev.Lvm.Machine.{Op}

-- Behind a check: nothing where it refuses.
abbrev pub planned : {A : Type 0} → Result A → (A → List Call) → List Call
planned (ok a) rest = rest a
planned (err e) rest = []

-- The data LV, the metadata LV, and their conversion into a pool.
abbrev pub cache_pool_plan :
    Bytes → Bytes → ℕ → ℕ → CacheMode → ℕ → Option (List Bytes) → Globals → List Call
cache_pool_plan vg_name pool_name pool_size md_size mode flags fast_pvs g =
    lvm_call
      (lvcreate_args vg_name pool_name pool_size (get_lv_type_from_flags flags false) fast_pvs) none
      g
    ∷ lvm_call
        (lvcreate_args vg_name (pool_name ++ codes "_meta") (md_size_of md_size pool_size)
          (get_lv_type_from_flags flags true) fast_pvs)
        none g
    ∷ planned (cache_get_mode_str mode)
        (λ mode_str. lvm_call (cache_pool_args vg_name pool_name mode_str) none g ∷ [])

-- The pool, the data LV, and the pool attached to it.
abbrev pub cached_lv_plan :
    Bytes
    → Bytes
    → ℕ
    → ℕ
    → ℕ
    → CacheMode
    → ℕ
    → Option (List Bytes)
    → Option (List Bytes)
    → Globals
    → List Call
cached_lv_plan vg_name lv_name data_size cache_size md_size mode flags slow_pvs fast_pvs g =
    cache_pool_plan vg_name (lv_name ++ codes "_cache") cache_size md_size mode flags fast_pvs g
    ++ (lvm_call (lvcreate_args vg_name lv_name data_size none slow_pvs) none g
        ∷ lvm_call (cache_attach_args vg_name lv_name (lv_name ++ codes "_cache")) none g
        ∷ [])

abbrev pub writecache_plan : Bytes → Bytes → Bytes → Option (List ExtraArg) → Globals → List Call
writecache_plan vg_name data_lv cache_lv extra g =
    lvm_call (lvdeactivate_args vg_name data_lv) none g
    ∷ lvm_call (lvdeactivate_args vg_name cache_lv) none g
    ∷ lvm_call (writecache_args vg_name data_lv cache_lv) extra g
    ∷ []

abbrev pub writecached_lv_plan :
    Bytes → Bytes → ℕ → ℕ → Option (List Bytes) → Option (List Bytes) → Globals → List Call
writecached_lv_plan vg_name lv_name data_size cache_size slow_pvs fast_pvs g =
    lvm_call (lvcreate_args vg_name (lv_name ++ codes "_writecache") cache_size none fast_pvs) none
      g
    ∷ lvm_call (lvcreate_args vg_name lv_name data_size none slow_pvs) none g
    ∷ writecache_plan vg_name lv_name (lv_name ++ codes "_writecache") none g

abbrev pub rename_plan : Bytes → Bytes → Option Bytes → Globals → List Call
rename_plan vg_name data_lv none g = []
rename_plan vg_name data_lv (some name) g =
    lvm_call (lvrename_args vg_name data_lv name) none g ∷ []

abbrev pub convert_plan :
    Argv → Bytes → Bytes → Option Bytes → Option (List ExtraArg) → Globals → List Call
convert_plan args vg_name data_lv name extra g =
    lvm_call args extra g ∷ rename_plan vg_name data_lv name g

-- The settings of the pool are in the configuration of this one run.
abbrev pub vdo_plan : Argv → ℕ → WritePolicy → Option (List ExtraArg) → Globals → List Call
vdo_plan args index_memory write_policy extra g =
    planned (get_vdo_write_policy_str write_policy)
      (λ policy. lvm_call args extra (vdo_config index_memory policy g) ∷ [])

unfoldable pub plan : Env → Op → Globals → List Call
plan env (Op.pvcreate device data_alignment metadata_size extra) g =
    lvm_call (pvcreate_args device data_alignment metadata_size) extra g ∷ []
plan env (Op.pvresize device size extra) g = lvm_call (pvresize_args device size) extra g ∷ []
plan env (Op.pvremove device extra) g = lvm_call (pvremove_args device) extra g ∷ []
plan env (Op.pvmove src dest extra) g = lvm_call (pvmove_args src dest) extra g ∷ []
plan env (Op.pvscan device update_cache extra) g =
    lvm_call (pvscan_args device update_cache) extra g ∷ []
plan env (Op.add_pv_tags device tags) g = lvm_call (add_pv_tags_args device tags) none g ∷ []
plan env (Op.delete_pv_tags device tags) g = lvm_call (delete_pv_tags_args device tags) none g ∷ []
plan env (Op.vgcreate name pv_list pe_size extra) g =
    lvm_call (vgcreate_args name pv_list pe_size) extra g ∷ []
plan env (Op.vgremove vg_name extra) g = lvm_call (vgremove_args vg_name) extra g ∷ []
plan env (Op.vgrename old_vg_name new_vg_name extra) g =
    lvm_call (vgrename_args old_vg_name new_vg_name) extra g ∷ []
plan env (Op.vgactivate vg_name extra) g = lvm_call (vgactivate_args vg_name) extra g ∷ []
plan env (Op.vgdeactivate vg_name extra) g = lvm_call (vgdeactivate_args vg_name) extra g ∷ []
plan env (Op.vgextend vg_name device extra) g = lvm_call (vgextend_args vg_name device) extra g ∷ []
plan env (Op.vgreduce vg_name device extra) g = lvm_call (vgreduce_args vg_name device) extra g ∷ []
plan env (Op.add_vg_tags vg_name tags) g = lvm_call (add_vg_tags_args vg_name tags) none g ∷ []
plan env (Op.delete_vg_tags vg_name tags) g =
    lvm_call (delete_vg_tags_args vg_name tags) none g ∷ []
plan env (Op.vglock_start vg_name extra) g = lvm_call (vglock_start_args vg_name) extra g ∷ []
plan env (Op.vglock_stop vg_name extra) g = lvm_call (vglock_stop_args vg_name) extra g ∷ []
plan env (Op.lvcreate vg_name lv_name size type pv_list extra) g =
    lvm_call (lvcreate_args vg_name lv_name size type pv_list) extra g ∷ []
plan env (Op.lvremove vg_name lv_name force extra) g =
    lvm_call (lvremove_args vg_name lv_name force) extra g ∷ []
plan env (Op.lvrename vg_name lv_name new_name extra) g =
    lvm_call (lvrename_args vg_name lv_name new_name) extra g ∷ []
plan env (Op.lvresize vg_name lv_name size extra) g =
    lvm_call (lvresize_args (fs_option env) vg_name lv_name size) extra g ∷ []
plan env (Op.lvrepair vg_name lv_name pv_list extra) g =
    lvm_call (lvrepair_args vg_name lv_name pv_list) extra g ∷ []
plan env (Op.lvactivate vg_name lv_name ignore_skip shared extra) g =
    lvm_call (lvactivate_args vg_name lv_name ignore_skip shared) extra g ∷ []
plan env (Op.lvdeactivate vg_name lv_name extra) g =
    lvm_call (lvdeactivate_args vg_name lv_name) extra g ∷ []
plan env (Op.lvsnapshotcreate vg_name origin_name snapshot_name size extra) g =
    lvm_call (lvsnapshotcreate_args vg_name origin_name snapshot_name size) extra g ∷ []
plan env (Op.lvsnapshotmerge vg_name snapshot_name extra) g =
    lvm_call (lvsnapshotmerge_args vg_name snapshot_name) extra g ∷ []
plan env (Op.add_lv_tags vg_name lv_name tags) g =
    lvm_call (add_lv_tags_args vg_name lv_name tags) none g ∷ []
plan env (Op.delete_lv_tags vg_name lv_name tags) g =
    lvm_call (delete_lv_tags_args vg_name lv_name tags) none g ∷ []
plan env (Op.thpoolcreate vg_name lv_name size md_size chunk_size profile extra) g =
    lvm_call (thpoolcreate_args vg_name lv_name size md_size chunk_size profile) extra g ∷ []
plan env (Op.thlvcreate vg_name pool_name lv_name size extra) g =
    lvm_call (thlvcreate_args vg_name pool_name lv_name size) extra g ∷ []
plan env (Op.thsnapshotcreate vg_name origin_name snapshot_name pool_name extra) g =
    lvm_call (thsnapshotcreate_args vg_name origin_name snapshot_name pool_name) extra g ∷ []
plan env (Op.cache_attach vg_name data_lv cache_pool_lv extra) g =
    lvm_call (cache_attach_args vg_name data_lv cache_pool_lv) extra g ∷ []
plan env (Op.cache_detach vg_name cached_lv destroy extra) g =
    lvm_call (cache_detach_args vg_name cached_lv destroy) extra g ∷ []
plan env (Op.cache_create_pool vg_name pool_name pool_size md_size mode flags fast_pvs) g =
    cache_pool_plan vg_name pool_name pool_size md_size mode flags fast_pvs g
plan env
      (Op.cache_create_cached_lv vg_name lv_name data_size cache_size md_size mode flags slow_pvs
        fast_pvs)
      g =
    cached_lv_plan vg_name lv_name data_size cache_size md_size mode flags slow_pvs fast_pvs g
plan env (Op.writecache_attach vg_name data_lv cache_lv extra) g =
    writecache_plan vg_name data_lv cache_lv extra g
plan env (Op.writecache_detach vg_name cached_lv destroy extra) g =
    lvm_call (cache_detach_args vg_name cached_lv destroy) extra g ∷ []
plan env (Op.writecache_create_cached_lv vg_name lv_name data_size cache_size slow_pvs fast_pvs) g =
    writecached_lv_plan vg_name lv_name data_size cache_size slow_pvs fast_pvs g
plan env (Op.thpool_convert vg_name data_lv metadata_lv name extra) g =
    convert_plan (thpool_convert_args vg_name data_lv metadata_lv) vg_name data_lv name extra g
plan env (Op.cache_pool_convert vg_name data_lv metadata_lv name extra) g =
    convert_plan (cache_pool_convert_args vg_name data_lv metadata_lv) vg_name data_lv name extra g
plan env
      (Op.vdo_pool_create vg_name lv_name pool_name data_size virtual_size index_memory compression
        deduplication policy extra)
      g =
    vdo_plan
      (vdo_pool_create_args vg_name lv_name pool_name data_size virtual_size compression
        deduplication)
      index_memory policy extra g
plan env
      (Op.vdo_pool_convert vg_name pool_lv name virtual_size index_memory compression deduplication
        policy extra)
      g =
    vdo_plan (vdo_pool_convert_args vg_name pool_lv name virtual_size compression deduplication)
      index_memory policy extra g
plan env (Op.vdo_enable_compression vg_name pool_name extra) g =
    lvm_call (vdo_set_args vg_name pool_name (codes "--compression") true) extra g ∷ []
plan env (Op.vdo_enable_deduplication vg_name pool_name extra) g =
    lvm_call (vdo_set_args vg_name pool_name (codes "--deduplication") true) extra g ∷ []
plan env (Op.vdo_disable_compression vg_name pool_name extra) g =
    lvm_call (vdo_set_args vg_name pool_name (codes "--compression") false) extra g ∷ []
plan env (Op.vdo_disable_deduplication vg_name pool_name extra) g =
    lvm_call (vdo_set_args vg_name pool_name (codes "--deduplication") false) extra g ∷ []
plan env (Op.pvinfo device) g = lvm_call (slots_for 10 (pv_args (device ∷ []))) none g ∷ []
plan env Op.pvs g = lvm_call (slots_for 9 (pv_args [])) none g ∷ []
plan env (Op.vginfo vg_name) g = lvm_call (slots_for 10 (vg_args (vg_name ∷ []))) none g ∷ []
plan env Op.vgs g = lvm_call (slots_for 9 (vg_args [])) none g ∷ []
plan env (Op.lvorigin vg_name lv_name) g =
    lvm_call (column_args (codes "origin") vg_name lv_name) none g ∷ []
plan env (Op.thlvpoolname vg_name lv_name) g =
    lvm_call (column_args (codes "pool_lv") vg_name lv_name) none g ∷ []
plan env (Op.vdolvpoolname vg_name lv_name) g =
    lvm_call (column_args (codes "pool_lv") vg_name lv_name) none g ∷ []
plan env (Op.cache_pool_name vg_name cached_lv) g =
    lvm_call (column_args (codes "pool_lv") vg_name cached_lv) none g ∷ []
plan env (Op.lvinfo vg_name lv_name) g =
    lvm_call (slots_for 11 (lv_args lv_columns (spec vg_name lv_name ∷ []))) none g ∷ []
plan env (Op.lvinfo_tree vg_name lv_name) g =
    lvm_call (slots_for 11 (lv_args tree_columns (spec vg_name lv_name ∷ []))) none g ∷ []
plan env (Op.lvs vg_name) g =
    lvm_call (slots_for 11 (lv_args lv_columns (optional vg_name))) none g ∷ []
plan env (Op.lvs_tree vg_name) g =
    lvm_call (slots_for 11 (lv_args tree_columns (optional vg_name))) none g ∷ []
plan env (Op.vdo_info vg_name lv_name) g =
    lvm_call (slots_for 11 (lv_args vdo_columns (spec vg_name lv_name ∷ []))) none g ∷ []
plan env (Op.vdo_resize vg_name lv_name size extra) g =
    lvm_call (lvresize_args (fs_option env) vg_name lv_name size) extra g ∷ []
plan env (Op.vdo_pool_resize vg_name pool_name size extra) g =
    lvm_call (slots_for 11 (lv_args lv_columns (spec vg_name pool_name ∷ []))) none g
    ∷ lvm_call (lvresize_args (fs_option env) vg_name pool_name size) extra g
    ∷ []
