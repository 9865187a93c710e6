-- ===== src/Lvm/Machine/Completes.antt =====
-- src/plugins/lvm/lvm.c: every operation that does not read a report succeeds where each run of `lvm` does.
use libblockdev.Base.{◌≡◌, Option, none, some, List, codes, refl, true, false, Bytes, ◌++◌, ok}
use libblockdev.Lvm.Config.{Globals}
use libblockdev.Lvm.Ops.{Call, World, Env}
use libblockdev.Lvm.Ops.Volumes.{
  pvcreate, pvresize, pvremove, pvmove, pvscan, add_pv_tags, delete_pv_tags, vgcreate, vgremove,
  vgrename, vgactivate, vgdeactivate, vgextend, vgreduce, add_vg_tags, delete_vg_tags, vglock_start,
  vglock_stop, add_pv_tags_args, add_vg_tags_args, delete_pv_tags_args, delete_vg_tags_args,
  pvcreate_args, pvmove_args, pvremove_args, pvresize_args, pvscan_args, vgactivate_args,
  vgcreate_args, vgdeactivate_args, vgextend_args, vglock_start_args, vglock_stop_args,
  vgreduce_args, vgremove_args, vgrename_args, extract_pvmove_progress,
}
use libblockdev.Lvm.Ops.Logical.{
  lvcreate, lvremove, lvrename, lvrepair, lvactivate, lvdeactivate, lvsnapshotcreate,
  lvsnapshotmerge, add_lv_tags, delete_lv_tags, add_lv_tags_args, delete_lv_tags_args,
  lvactivate_args, lvcreate_args, lvdeactivate_args, lvremove_args, lvrename_args, lvrepair_args,
  lvsnapshotcreate_args, lvsnapshotmerge_args,
}
use libblockdev.Lvm.Ops.Thin.{
  thpoolcreate, thlvcreate, thsnapshotcreate, thlvcreate_args, thpoolcreate_args,
  thsnapshotcreate_args,
}
use libblockdev.Lvm.Ops.Vdo.{
  vdo_pool_create, vdo_pool_convert, vdo_enable_compression, vdo_enable_deduplication,
  vdo_disable_compression, vdo_disable_deduplication, vdo_set_args,
  vdo_set_compression_deduplication,
}
use libblockdev.Lvm.Ops.Caches.{
  cache_attach, cache_detach, cache_create_pool, cache_create_cached_lv, writecache_attach,
  writecache_detach, writecache_create_cached_lv, thpool_convert, cache_pool_convert,
  cache_attach_args, cache_detach_args,
}
use libblockdev.Lvm.Ops.Lists.{vdo_resize}
use libblockdev.Lvm.Safety.{Outcome}
use libblockdev.Lvm.Machine.{Op, perform, fresh}
use libblockdev.Lvm.Machine.Plans.{plan}
use libblockdev.Lvm.Modes.{CacheMode, cache_get_mode_str, WritePolicy, get_vdo_write_policy_str}
use libblockdev.Lvm.Safety.Completes.{
  Known, EndsWell, Done, Completes, report_error-Completes, report_progress-Completes,
  lvresize-Completes,
}
use libblockdev.Lvm.Machine.Safe.{perform-Outcome}
use libblockdev.Lvm.Safety.Completes.Composed.{
  cache_create_pool-Completes, cache_create_cached_lv-Completes, writecache_attach-Completes,
  writecache_create_cached_lv-Completes, thpool_convert-Completes, cache_pool_convert-Completes,
  vdo_pool_create-Completes, vdo_pool_convert-Completes,
}

-- A mode and a policy that have a name.
abbrev IsMode : CacheMode → Type 0
IsMode mode = (name : Bytes) × (cache_get_mode_str mode ≡ ok name)

abbrev IsPolicy : WritePolicy → Type 0
IsPolicy policy = (name : Bytes) × (get_vdo_write_policy_str policy ≡ ok name)

-- The operations that read no report, with a mode or a policy that has a name.
abbrev pub IsCommand : Op → Type 0
IsCommand (Op.pvinfo a0) = ⊥
IsCommand Op.pvs = ⊥
IsCommand (Op.vginfo a0) = ⊥
IsCommand Op.vgs = ⊥
IsCommand (Op.lvorigin a0 a1) = ⊥
IsCommand (Op.thlvpoolname a0 a1) = ⊥
IsCommand (Op.vdolvpoolname a0 a1) = ⊥
IsCommand (Op.cache_pool_name a0 a1) = ⊥
IsCommand (Op.lvinfo a0 a1) = ⊥
IsCommand (Op.lvinfo_tree a0 a1) = ⊥
IsCommand (Op.lvs a0) = ⊥
IsCommand (Op.lvs_tree a0) = ⊥
IsCommand (Op.vdo_info a0 a1) = ⊥
IsCommand (Op.vdo_pool_resize a0 a1 a2 a3) = ⊥
IsCommand (Op.cache_create_pool a b c d mode e f) = IsMode mode
IsCommand (Op.cache_create_cached_lv a b c d e mode f g h) = IsMode mode
IsCommand (Op.vdo_pool_create a b c d e f g h policy i) = IsPolicy policy
IsCommand (Op.vdo_pool_convert a b c d e f g policy h) = IsPolicy policy
IsCommand _ = Unit {0}

perform-Completes : (env : Env) → EndsWell env → (o : Op) → IsCommand o → Completes (perform env o)
unfolding perform pvcreate pvresize pvremove pvmove pvscan add_pv_tags delete_pv_tags vgcreate
    vgremove vgrename vgactivate vgdeactivate vgextend vgreduce add_vg_tags delete_vg_tags
    vglock_start vglock_stop lvcreate lvremove lvrename lvrepair lvactivate lvdeactivate
    lvsnapshotcreate lvsnapshotmerge add_lv_tags delete_lv_tags thpoolcreate thlvcreate
    thsnapshotcreate cache_attach cache_detach cache_create_pool cache_create_cached_lv
    writecache_attach writecache_detach writecache_create_cached_lv thpool_convert
    cache_pool_convert vdo_pool_create vdo_pool_convert vdo_enable_compression
    vdo_enable_deduplication vdo_disable_compression vdo_disable_deduplication vdo_resize
    vdo_set_compression_deduplication
perform-Completes env well (Op.pvcreate device data_alignment metadata_size extra) h =
    report_error-Completes env well (pvcreate_args device data_alignment metadata_size) extra
perform-Completes env well (Op.pvresize device size extra) h =
    report_error-Completes env well (pvresize_args device size) extra
perform-Completes env well (Op.pvremove device extra) h =
    report_error-Completes env well (pvremove_args device) extra
perform-Completes env well (Op.pvmove src dest extra) h =
    report_progress-Completes env well (pvmove_args src dest) extra
      (extract_pvmove_progress env.scan_hhu)
perform-Completes env well (Op.pvscan device update_cache extra) h =
    report_error-Completes env well (pvscan_args device update_cache) extra
perform-Completes env well (Op.add_pv_tags device tags) h =
    report_error-Completes env well (add_pv_tags_args device tags) none
perform-Completes env well (Op.delete_pv_tags device tags) h =
    report_error-Completes env well (delete_pv_tags_args device tags) none
perform-Completes env well (Op.vgcreate name pv_list pe_size extra) h =
    report_error-Completes env well (vgcreate_args name pv_list pe_size) extra
perform-Completes env well (Op.vgremove vg_name extra) h =
    report_error-Completes env well (vgremove_args vg_name) extra
perform-Completes env well (Op.vgrename old_vg_name new_vg_name extra) h =
    report_error-Completes env well (vgrename_args old_vg_name new_vg_name) extra
perform-Completes env well (Op.vgactivate vg_name extra) h =
    report_error-Completes env well (vgactivate_args vg_name) extra
perform-Completes env well (Op.vgdeactivate vg_name extra) h =
    report_error-Completes env well (vgdeactivate_args vg_name) extra
perform-Completes env well (Op.vgextend vg_name device extra) h =
    report_error-Completes env well (vgextend_args vg_name device) extra
perform-Completes env well (Op.vgreduce vg_name device extra) h =
    report_error-Completes env well (vgreduce_args vg_name device) extra
perform-Completes env well (Op.add_vg_tags vg_name tags) h =
    report_error-Completes env well (add_vg_tags_args vg_name tags) none
perform-Completes env well (Op.delete_vg_tags vg_name tags) h =
    report_error-Completes env well (delete_vg_tags_args vg_name tags) none
perform-Completes env well (Op.vglock_start vg_name extra) h =
    report_error-Completes env well (vglock_start_args vg_name) extra
perform-Completes env well (Op.vglock_stop vg_name extra) h =
    report_error-Completes env well (vglock_stop_args vg_name) extra
perform-Completes env well (Op.lvcreate vg_name lv_name size type pv_list extra) h =
    report_error-Completes env well (lvcreate_args vg_name lv_name size type pv_list) extra
perform-Completes env well (Op.lvremove vg_name lv_name force extra) h =
    report_error-Completes env well (lvremove_args vg_name lv_name force) extra
perform-Completes env well (Op.lvrename vg_name lv_name new_name extra) h =
    report_error-Completes env well (lvrename_args vg_name lv_name new_name) extra
perform-Completes env well (Op.lvresize vg_name lv_name size extra) h =
    lvresize-Completes env well vg_name lv_name size extra
perform-Completes env well (Op.lvrepair vg_name lv_name pv_list extra) h =
    report_error-Completes env well (lvrepair_args vg_name lv_name pv_list) extra
perform-Completes env well (Op.lvactivate vg_name lv_name ignore_skip shared extra) h =
    report_error-Completes env well (lvactivate_args vg_name lv_name ignore_skip shared) extra
perform-Completes env well (Op.lvdeactivate vg_name lv_name extra) h =
    report_error-Completes env well (lvdeactivate_args vg_name lv_name) extra
perform-Completes env well (Op.lvsnapshotcreate vg_name origin_name snapshot_name size extra) h =
    report_error-Completes env well (lvsnapshotcreate_args vg_name origin_name snapshot_name size)
      extra
perform-Completes env well (Op.lvsnapshotmerge vg_name snapshot_name extra) h =
    report_error-Completes env well (lvsnapshotmerge_args vg_name snapshot_name) extra
perform-Completes env well (Op.add_lv_tags vg_name lv_name tags) h =
    report_error-Completes env well (add_lv_tags_args vg_name lv_name tags) none
perform-Completes env well (Op.delete_lv_tags vg_name lv_name tags) h =
    report_error-Completes env well (delete_lv_tags_args vg_name lv_name tags) none
perform-Completes env well (Op.thpoolcreate vg_name lv_name size md_size chunk_size profile extra)
      h =
    report_error-Completes env well
      (thpoolcreate_args vg_name lv_name size md_size chunk_size profile) extra
perform-Completes env well (Op.thlvcreate vg_name pool_name lv_name size extra) h =
    report_error-Completes env well (thlvcreate_args vg_name pool_name lv_name size) extra
perform-Completes env well (Op.thsnapshotcreate vg_name origin_name snapshot_name pool_name extra)
      h =
    report_error-Completes env well
      (thsnapshotcreate_args vg_name origin_name snapshot_name pool_name) extra
perform-Completes env well (Op.cache_attach vg_name data_lv cache_pool_lv extra) h =
    report_error-Completes env well (cache_attach_args vg_name data_lv cache_pool_lv) extra
perform-Completes env well (Op.cache_detach vg_name cached_lv destroy extra) h =
    report_error-Completes env well (cache_detach_args vg_name cached_lv destroy) extra
perform-Completes env well
      (Op.cache_create_pool vg_name pool_name pool_size md_size mode flags fast_pvs) h =
    cache_create_pool-Completes env well vg_name pool_name pool_size md_size mode flags fast_pvs h.0
      h.1
perform-Completes env well
      (Op.cache_create_cached_lv vg_name lv_name data_size cache_size md_size mode flags slow_pvs
        fast_pvs)
      h =
    cache_create_cached_lv-Completes env well vg_name lv_name data_size cache_size md_size mode
      flags slow_pvs fast_pvs h.0 h.1
perform-Completes env well (Op.writecache_attach vg_name data_lv cache_lv extra) h =
    writecache_attach-Completes env well vg_name data_lv cache_lv extra
perform-Completes env well (Op.writecache_detach vg_name cached_lv destroy extra) h =
    report_error-Completes env well (cache_detach_args vg_name cached_lv destroy) extra
perform-Completes env well
      (Op.writecache_create_cached_lv vg_name lv_name data_size cache_size slow_pvs fast_pvs) h =
    writecache_create_cached_lv-Completes env well vg_name lv_name data_size cache_size slow_pvs
      fast_pvs
perform-Completes env well (Op.thpool_convert vg_name data_lv metadata_lv name extra) h =
    thpool_convert-Completes env well vg_name data_lv metadata_lv name extra
perform-Completes env well (Op.cache_pool_convert vg_name data_lv metadata_lv name extra) h =
    cache_pool_convert-Completes env well vg_name data_lv metadata_lv name extra
perform-Completes env well
      (Op.vdo_pool_create vg_name lv_name pool_name data_size virtual_size index_memory compression
        deduplication policy extra)
      h =
    vdo_pool_create-Completes env well vg_name lv_name pool_name data_size virtual_size index_memory
      compression deduplication policy extra h.0 h.1
perform-Completes env well
      (Op.vdo_pool_convert vg_name pool_lv name virtual_size index_memory compression deduplication
        policy extra)
      h =
    vdo_pool_convert-Completes env well vg_name pool_lv name virtual_size index_memory compression
      deduplication policy extra h.0 h.1
perform-Completes env well (Op.vdo_enable_compression vg_name pool_name extra) h =
    report_error-Completes env well (vdo_set_args vg_name pool_name (codes "--compression") true)
      extra
perform-Completes env well (Op.vdo_enable_deduplication vg_name pool_name extra) h =
    report_error-Completes env well (vdo_set_args vg_name pool_name (codes "--deduplication") true)
      extra
perform-Completes env well (Op.vdo_disable_compression vg_name pool_name extra) h =
    report_error-Completes env well (vdo_set_args vg_name pool_name (codes "--compression") false)
      extra
perform-Completes env well (Op.vdo_disable_deduplication vg_name pool_name extra) h =
    report_error-Completes env well (vdo_set_args vg_name pool_name (codes "--deduplication") false)
      extra
perform-Completes env well (Op.vdo_resize vg_name lv_name size extra) h =
    lvresize-Completes env well vg_name lv_name size extra
perform-Completes env well (Op.pvinfo a0) h = absurd h
perform-Completes env well Op.pvs h = absurd h
perform-Completes env well (Op.vginfo a0) h = absurd h
perform-Completes env well Op.vgs h = absurd h
perform-Completes env well (Op.lvorigin a0 a1) h = absurd h
perform-Completes env well (Op.thlvpoolname a0 a1) h = absurd h
perform-Completes env well (Op.vdolvpoolname a0 a1) h = absurd h
perform-Completes env well (Op.cache_pool_name a0 a1) h = absurd h
perform-Completes env well (Op.lvinfo a0 a1) h = absurd h
perform-Completes env well (Op.lvinfo_tree a0 a1) h = absurd h
perform-Completes env well (Op.lvs a0) h = absurd h
perform-Completes env well (Op.lvs_tree a0) h = absurd h
perform-Completes env well (Op.vdo_info a0 a1) h = absurd h
perform-Completes env well (Op.vdo_pool_resize a0 a1 a2 a3) h = absurd h

whole_plan :
    (plan : List Call) (g : Globals) (calls : List Call) (x : World × Option (Unit {0}))
    → Done x
    → Outcome plan g calls x
    → (x.1 ≡ some tt) × (x.0.calls ≡ calls ++ plan)
whole_plan plan g calls (w, some tt) known (ran, kept, clean) = (refl, ran)
whole_plan plan g calls (w, none) h o = absurd h

-- An operation that reads no report, with a mode or policy that has a name if it takes one, called where
-- an earlier call has found `lvm` and every run of it ends well: it succeeds, and has run its whole plan.
pub perform_succeeds :
    (env : Env) (o : Op) (w : World)
    → EndsWell env
    → IsCommand o
    → Known w
    → ((perform env o (fresh w)).1 ≡ some tt)
      × ((perform env o (fresh w)).0.calls ≡ w.calls ++ plan env o w.globals)
perform_succeeds env o w well command known =
    whole_plan (plan env o w.globals) w.globals w.calls (perform env o (fresh w))
      ((perform-Completes env well o command).holds (fresh w) known) (perform-Outcome env o w)
