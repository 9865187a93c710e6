-- ===== src/Lvm/Machine/Safe.antt =====
-- src/plugins/lvm/lvm.c: how each operation ends: the runs of `lvm`, the configuration, and the error.
use libblockdev.Base.{Option, none, some, List, [], ◌∷◌, codes, refl, true, false}
use libblockdev.Lvm.Config.{Globals}
use libblockdev.Lvm.Ops.{Call, World, Env, M, slots_for, spec, optional}
use libblockdev.Lvm.Ops.Volumes.{
  pvcreate, pvresize, pvremove, pvmove, pvscan, add_pv_tags, delete_pv_tags, vgcreate, vgremove,
  vgrename, vgactivate, vgdeactivate, vgextend, vgreduce, add_vg_tags, delete_vg_tags, vglock_start,
  vglock_stop, add_pv_tags_args, add_vg_tags_args, delete_pv_tags_args, delete_vg_tags_args,
  pvcreate_args, pvmove_args, pvremove_args, pvresize_args, pvscan_args, vgactivate_args,
  vgcreate_args, vgdeactivate_args, vgextend_args, vglock_start_args, vglock_stop_args,
  vgreduce_args, vgremove_args, vgrename_args, extract_pvmove_progress,
}
use libblockdev.Lvm.Ops.Logical.{
  lvcreate, lvremove, lvrename, lvrepair, lvactivate, lvdeactivate, lvsnapshotcreate,
  lvsnapshotmerge, add_lv_tags, delete_lv_tags, add_lv_tags_args, delete_lv_tags_args,
  lvactivate_args, lvcreate_args, lvdeactivate_args, lvremove_args, lvrename_args, lvrepair_args,
  lvsnapshotcreate_args, lvsnapshotmerge_args,
}
use libblockdev.Lvm.Ops.Thin.{
  thpoolcreate, thlvcreate, thsnapshotcreate, thlvcreate_args, thpoolcreate_args,
  thsnapshotcreate_args,
}
use libblockdev.Lvm.Ops.Vdo.{
  vdo_pool_create, vdo_pool_convert, vdo_enable_compression, vdo_enable_deduplication,
  vdo_disable_compression, vdo_disable_deduplication, vdo_set_args,
  vdo_set_compression_deduplication,
}
use libblockdev.Lvm.Ops.Caches.{
  cache_attach, cache_detach, cache_create_pool, cache_create_cached_lv, writecache_attach,
  writecache_detach, writecache_create_cached_lv, thpool_convert, cache_pool_convert,
  cache_attach_args, cache_detach_args,
}
use libblockdev.Lvm.Ops.Queries.{
  pvinfo, pvs, vginfo, vgs, lvinfo, lvinfo_tree, pv_args, vg_args, lv_args, lv_columns,
  tree_columns,
}
use libblockdev.Lvm.Ops.Columns.{
  lvorigin, thlvpoolname, vdolvpoolname, cache_pool_name, column_args,
}
use libblockdev.Lvm.Ops.Lists.{lvs, lvs_tree, vdo_info, vdo_resize, vdo_pool_resize, vdo_columns}
use libblockdev.Lvm.Safety.{Outcome, Runs, >>=-reads, checked-Runs, pure-Runs}
use libblockdev.Lvm.Safety.Steps.{
  lvresize-Runs, report_error-Runs, capture_output-Runs, report_progress-Runs, capture_if_any-Runs,
}
use libblockdev.Lvm.Safety.Composed.{
  cache_create_pool-Runs, cache_create_cached_lv-Runs, writecache_attach-Runs,
  writecache_create_cached_lv-Runs, thpool_convert-Runs, cache_pool_convert-Runs,
  vdo_pool_create-Runs, vdo_pool_convert-Runs, vdo_pool_resize-Runs,
}
use libblockdev.Lvm.Machine.{Op, dropped, discard, perform, fresh}
use libblockdev.Lvm.Machine.Plans.{plan}

dropped-Outcome :
    {A : Type 0} (p : List Call) (g : Globals) (calls : List Call) (x : World × Option A)
    → Outcome p g calls x
    → Outcome p g calls (dropped x)
dropped-Outcome p g calls (w, none) o = o
dropped-Outcome p g calls (w, some a) o = o

discard-Runs : {A : Type 0} {p : Globals → List Call} {m : M A} → Runs p m → Runs p (discard m)
unfolding discard
discard-Runs {p} {m} r = record {
  holds = λ w clean. dropped-Outcome (p w.globals) w.globals w.calls (m w) (r.holds w clean);
}

pub perform-Runs : (env : Env) (o : Op) → Runs (plan env o) (perform env o)
unfolding perform plan pvcreate pvresize pvremove pvmove pvscan add_pv_tags delete_pv_tags vgcreate
    vgremove vgrename vgactivate vgdeactivate vgextend vgreduce add_vg_tags delete_vg_tags
    vglock_start vglock_stop lvcreate lvremove lvrename lvrepair lvactivate lvdeactivate
    lvsnapshotcreate lvsnapshotmerge add_lv_tags delete_lv_tags thpoolcreate thlvcreate
    thsnapshotcreate cache_attach cache_detach cache_create_pool cache_create_cached_lv
    writecache_attach writecache_detach writecache_create_cached_lv thpool_convert
    cache_pool_convert vdo_pool_create vdo_pool_convert vdo_enable_compression
    vdo_enable_deduplication vdo_disable_compression vdo_disable_deduplication pvinfo pvs vginfo vgs
    lvorigin thlvpoolname vdolvpoolname cache_pool_name lvinfo lvinfo_tree lvs lvs_tree vdo_info
    vdo_resize vdo_pool_resize vdo_set_compression_deduplication
perform-Runs env (Op.pvcreate device data_alignment metadata_size extra) =
    report_error-Runs (pvcreate_args device data_alignment metadata_size) extra env
perform-Runs env (Op.pvresize device size extra) =
    report_error-Runs (pvresize_args device size) extra env
perform-Runs env (Op.pvremove device extra) = report_error-Runs (pvremove_args device) extra env
perform-Runs env (Op.pvmove src dest extra) =
    report_progress-Runs (pvmove_args src dest) extra env (extract_pvmove_progress env.scan_hhu)
perform-Runs env (Op.pvscan device update_cache extra) =
    report_error-Runs (pvscan_args device update_cache) extra env
perform-Runs env (Op.add_pv_tags device tags) =
    report_error-Runs (add_pv_tags_args device tags) none env
perform-Runs env (Op.delete_pv_tags device tags) =
    report_error-Runs (delete_pv_tags_args device tags) none env
perform-Runs env (Op.vgcreate name pv_list pe_size extra) =
    report_error-Runs (vgcreate_args name pv_list pe_size) extra env
perform-Runs env (Op.vgremove vg_name extra) = report_error-Runs (vgremove_args vg_name) extra env
perform-Runs env (Op.vgrename old_vg_name new_vg_name extra) =
    report_error-Runs (vgrename_args old_vg_name new_vg_name) extra env
perform-Runs env (Op.vgactivate vg_name extra) =
    report_error-Runs (vgactivate_args vg_name) extra env
perform-Runs env (Op.vgdeactivate vg_name extra) =
    report_error-Runs (vgdeactivate_args vg_name) extra env
perform-Runs env (Op.vgextend vg_name device extra) =
    report_error-Runs (vgextend_args vg_name device) extra env
perform-Runs env (Op.vgreduce vg_name device extra) =
    report_error-Runs (vgreduce_args vg_name device) extra env
perform-Runs env (Op.add_vg_tags vg_name tags) =
    report_error-Runs (add_vg_tags_args vg_name tags) none env
perform-Runs env (Op.delete_vg_tags vg_name tags) =
    report_error-Runs (delete_vg_tags_args vg_name tags) none env
perform-Runs env (Op.vglock_start vg_name extra) =
    report_error-Runs (vglock_start_args vg_name) extra env
perform-Runs env (Op.vglock_stop vg_name extra) =
    report_error-Runs (vglock_stop_args vg_name) extra env
perform-Runs env (Op.lvcreate vg_name lv_name size type pv_list extra) =
    report_error-Runs (lvcreate_args vg_name lv_name size type pv_list) extra env
perform-Runs env (Op.lvremove vg_name lv_name force extra) =
    report_error-Runs (lvremove_args vg_name lv_name force) extra env
perform-Runs env (Op.lvrename vg_name lv_name new_name extra) =
    report_error-Runs (lvrename_args vg_name lv_name new_name) extra env
perform-Runs env (Op.lvresize vg_name lv_name size extra) =
    lvresize-Runs env vg_name lv_name size extra
perform-Runs env (Op.lvrepair vg_name lv_name pv_list extra) =
    report_error-Runs (lvrepair_args vg_name lv_name pv_list) extra env
perform-Runs env (Op.lvactivate vg_name lv_name ignore_skip shared extra) =
    report_error-Runs (lvactivate_args vg_name lv_name ignore_skip shared) extra env
perform-Runs env (Op.lvdeactivate vg_name lv_name extra) =
    report_error-Runs (lvdeactivate_args vg_name lv_name) extra env
perform-Runs env (Op.lvsnapshotcreate vg_name origin_name snapshot_name size extra) =
    report_error-Runs (lvsnapshotcreate_args vg_name origin_name snapshot_name size) extra env
perform-Runs env (Op.lvsnapshotmerge vg_name snapshot_name extra) =
    report_error-Runs (lvsnapshotmerge_args vg_name snapshot_name) extra env
perform-Runs env (Op.add_lv_tags vg_name lv_name tags) =
    report_error-Runs (add_lv_tags_args vg_name lv_name tags) none env
perform-Runs env (Op.delete_lv_tags vg_name lv_name tags) =
    report_error-Runs (delete_lv_tags_args vg_name lv_name tags) none env
perform-Runs env (Op.thpoolcreate vg_name lv_name size md_size chunk_size profile extra) =
    report_error-Runs (thpoolcreate_args vg_name lv_name size md_size chunk_size profile) extra env
perform-Runs env (Op.thlvcreate vg_name pool_name lv_name size extra) =
    report_error-Runs (thlvcreate_args vg_name pool_name lv_name size) extra env
perform-Runs env (Op.thsnapshotcreate vg_name origin_name snapshot_name pool_name extra) =
    report_error-Runs (thsnapshotcreate_args vg_name origin_name snapshot_name pool_name) extra env
perform-Runs env (Op.cache_attach vg_name data_lv cache_pool_lv extra) =
    report_error-Runs (cache_attach_args vg_name data_lv cache_pool_lv) extra env
perform-Runs env (Op.cache_detach vg_name cached_lv destroy extra) =
    report_error-Runs (cache_detach_args vg_name cached_lv destroy) extra env
perform-Runs env (Op.cache_create_pool vg_name pool_name pool_size md_size mode flags fast_pvs) =
    cache_create_pool-Runs env vg_name pool_name pool_size md_size mode flags fast_pvs
perform-Runs env
      (Op.cache_create_cached_lv vg_name lv_name data_size cache_size md_size mode flags slow_pvs
        fast_pvs) =
    cache_create_cached_lv-Runs env vg_name lv_name data_size cache_size md_size mode flags slow_pvs
      fast_pvs
perform-Runs env (Op.writecache_attach vg_name data_lv cache_lv extra) =
    writecache_attach-Runs env vg_name data_lv cache_lv extra
perform-Runs env (Op.writecache_detach vg_name cached_lv destroy extra) =
    report_error-Runs (cache_detach_args vg_name cached_lv destroy) extra env
perform-Runs env
      (Op.writecache_create_cached_lv vg_name lv_name data_size cache_size slow_pvs fast_pvs) =
    writecache_create_cached_lv-Runs env vg_name lv_name data_size cache_size slow_pvs fast_pvs
perform-Runs env (Op.thpool_convert vg_name data_lv metadata_lv name extra) =
    thpool_convert-Runs env vg_name data_lv metadata_lv name extra
perform-Runs env (Op.cache_pool_convert vg_name data_lv metadata_lv name extra) =
    cache_pool_convert-Runs env vg_name data_lv metadata_lv name extra
perform-Runs env
      (Op.vdo_pool_create vg_name lv_name pool_name data_size virtual_size index_memory compression
        deduplication policy extra) =
    vdo_pool_create-Runs env vg_name lv_name pool_name data_size virtual_size index_memory
      compression deduplication policy extra
perform-Runs env
      (Op.vdo_pool_convert vg_name pool_lv name virtual_size index_memory compression deduplication
        policy extra) =
    vdo_pool_convert-Runs env vg_name pool_lv name virtual_size index_memory compression
      deduplication policy extra
perform-Runs env (Op.vdo_enable_compression vg_name pool_name extra) =
    report_error-Runs (vdo_set_args vg_name pool_name (codes "--compression") true) extra env
perform-Runs env (Op.vdo_enable_deduplication vg_name pool_name extra) =
    report_error-Runs (vdo_set_args vg_name pool_name (codes "--deduplication") true) extra env
perform-Runs env (Op.vdo_disable_compression vg_name pool_name extra) =
    report_error-Runs (vdo_set_args vg_name pool_name (codes "--compression") false) extra env
perform-Runs env (Op.vdo_disable_deduplication vg_name pool_name extra) =
    report_error-Runs (vdo_set_args vg_name pool_name (codes "--deduplication") false) extra env
perform-Runs env (Op.pvinfo device) = discard-Runs (
    >>=-reads (capture_output-Runs (slots_for 10 (pv_args (device ∷ []))) none env)
      (λ _. checked-Runs _))
perform-Runs env Op.pvs =
    discard-Runs
      (>>=-reads (capture_if_any-Runs env (slots_for 9 (pv_args []))) (λ _. checked-Runs _))
perform-Runs env (Op.vginfo vg_name) = discard-Runs (
    >>=-reads (capture_output-Runs (slots_for 10 (vg_args (vg_name ∷ []))) none env)
      (λ _. checked-Runs _))
perform-Runs env Op.vgs =
    discard-Runs
      (>>=-reads (capture_if_any-Runs env (slots_for 9 (vg_args []))) (λ _. checked-Runs _))
perform-Runs env (Op.lvorigin vg_name lv_name) = discard-Runs (
    >>=-reads (capture_output-Runs (column_args (codes "origin") vg_name lv_name) none env)
      (λ _. pure-Runs _))
perform-Runs env (Op.thlvpoolname vg_name lv_name) = discard-Runs (
    >>=-reads (capture_output-Runs (column_args (codes "pool_lv") vg_name lv_name) none env)
      (λ _. pure-Runs _))
perform-Runs env (Op.vdolvpoolname vg_name lv_name) = discard-Runs (
    >>=-reads (capture_output-Runs (column_args (codes "pool_lv") vg_name lv_name) none env)
      (λ _. pure-Runs _))
perform-Runs env (Op.cache_pool_name vg_name cached_lv) = discard-Runs (
    >>=-reads
      (>>=-reads (capture_output-Runs (column_args (codes "pool_lv") vg_name cached_lv) none env)
        (λ _. pure-Runs _))
      (λ _. checked-Runs _))
perform-Runs env (Op.lvinfo vg_name lv_name) = discard-Runs (
    >>=-reads
      (capture_output-Runs (slots_for 11 (lv_args lv_columns (spec vg_name lv_name ∷ []))) none env)
      (λ _. checked-Runs _))
perform-Runs env (Op.lvinfo_tree vg_name lv_name) = discard-Runs (
    >>=-reads
      (capture_output-Runs (slots_for 11 (lv_args tree_columns (spec vg_name lv_name ∷ []))) none
        env)
      (λ _. checked-Runs _))
perform-Runs env (Op.lvs vg_name) = discard-Runs (
    >>=-reads (capture_if_any-Runs env (slots_for 11 (lv_args lv_columns (optional vg_name))))
      (λ _. checked-Runs _))
perform-Runs env (Op.lvs_tree vg_name) = discard-Runs (
    >>=-reads (capture_if_any-Runs env (slots_for 11 (lv_args tree_columns (optional vg_name))))
      (λ _. checked-Runs _))
perform-Runs env (Op.vdo_info vg_name lv_name) = discard-Runs (
    >>=-reads
      (capture_output-Runs (slots_for 11 (lv_args vdo_columns (spec vg_name lv_name ∷ []))) none
        env)
      (λ _. checked-Runs _))
perform-Runs env (Op.vdo_resize vg_name lv_name size extra) =
    lvresize-Runs env vg_name lv_name size extra
perform-Runs env (Op.vdo_pool_resize vg_name pool_name size extra) =
    vdo_pool_resize-Runs env vg_name pool_name size extra

-- Each operation, called with its error cleared, in any state and whatever the programs answer. The runs
-- by which the plugin asks for the version of its tools stand in a log of their own and are not meant
-- here. Where the operation succeeds, exactly its plan was run, and no error is set; where it fails, a
-- first part of its plan was run, and an error is set. The global configuration is afterwards as it was
-- before, also where the operation runs `lvm` with settings of its own.
pub perform-Outcome :
    (env : Env) (o : Op) (w : World)
    → Outcome (plan env o w.globals) w.globals w.calls (perform env o (fresh w))
perform-Outcome env o w = (perform-Runs env o).holds (fresh w) refl
