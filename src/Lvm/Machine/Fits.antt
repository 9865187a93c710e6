-- ===== src/Lvm/Machine/Fits.antt =====
-- src/plugins/lvm/lvm.c: the arrays of the operations fit into what is allocated for them.
use libblockdev.Base.{All, arith, codes}
use libblockdev.Lvm.Config.{Globals}
use libblockdev.Lvm.Modes.{cache_get_mode_str, get_vdo_write_policy_str}
use libblockdev.Lvm.Ops.{Env, spec}
use libblockdev.Lvm.Ops.Volumes.{
  add_pv_tags_args, add_vg_tags_args, delete_pv_tags_args, delete_vg_tags_args, pvcreate_args,
  pvmove_args, pvremove_args, pvresize_args, pvscan_args, vgactivate_args, vgcreate_args,
  vgdeactivate_args, vgextend_args, vglock_start_args, vglock_stop_args, vgreduce_args,
  vgremove_args, vgrename_args,
}
use libblockdev.Lvm.Ops.Logical.{
  add_lv_tags_args, delete_lv_tags_args, lvactivate_args, lvdeactivate_args, lvremove_args,
  lvrename_args, lvrepair_args, lvresize_args, lvsnapshotcreate_args, lvsnapshotmerge_args,
}
use libblockdev.Lvm.Ops.Thin.{thlvcreate_args, thpoolcreate_args, thsnapshotcreate_args}
use libblockdev.Lvm.Ops.Caches.{
  cache_attach_args, cache_detach_args, cache_pool_args, cache_pool_convert_args,
  thpool_convert_args, writecache_args,
}
use libblockdev.Lvm.Ops.Vdo.{vdo_pool_convert_args, vdo_pool_create_args, vdo_set_args}
use libblockdev.Lvm.Machine.{Op}
use libblockdev.Lvm.Machine.Plans.{plan}
use libblockdev.Lvm.Machine.Slots.{
  Fits, lvm_call-Fits, tags_fit, lvcreate_fits, planned-Fits, planned_then, rename-Fits,
}

-- Every array that an operation plans to run, in any configuration, has room for its arguments and the
-- closing NULL: the array of the operation in the slots of its declaration, and the array of the program
-- in the four slots more that are allocated for it.
pub plan-Fits : (env : Env) (o : Op) (g : Globals) → All Fits (plan env o g)
unfolding plan add_lv_tags_args add_pv_tags_args add_vg_tags_args cache_attach_args
    cache_detach_args cache_pool_args cache_pool_convert_args delete_lv_tags_args
    delete_pv_tags_args delete_vg_tags_args lvactivate_args lvdeactivate_args lvremove_args
    lvrename_args lvrepair_args lvresize_args lvsnapshotcreate_args lvsnapshotmerge_args
    pvcreate_args pvmove_args pvremove_args pvresize_args pvscan_args thlvcreate_args
    thpool_convert_args thpoolcreate_args thsnapshotcreate_args vdo_pool_convert_args
    vdo_pool_create_args vdo_set_args vgactivate_args vgcreate_args vgdeactivate_args vgextend_args
    vglock_start_args vglock_stop_args vgreduce_args vgremove_args vgrename_args writecache_args
plan-Fits env (Op.pvcreate device data_alignment metadata_size extra) g =
    (lvm_call-Fits _ _ g (ground arith), tt)
plan-Fits env (Op.pvresize device size extra) g = (lvm_call-Fits _ _ g (ground arith), tt)
plan-Fits env (Op.pvremove device extra) g = (lvm_call-Fits _ _ g (ground arith), tt)
plan-Fits env (Op.pvmove src dest extra) g = (lvm_call-Fits _ _ g (ground arith), tt)
plan-Fits env (Op.pvscan device update_cache extra) g = (lvm_call-Fits _ _ g (ground arith), tt)
plan-Fits env (Op.add_pv_tags device tags) g =
    (lvm_call-Fits _ _ g (tags_fit device tags (codes "--addtag") (codes "pvchange")), tt)
plan-Fits env (Op.delete_pv_tags device tags) g =
    (lvm_call-Fits _ _ g (tags_fit device tags (codes "--deltag") (codes "pvchange")), tt)
plan-Fits env (Op.vgcreate name pv_list pe_size extra) g = (lvm_call-Fits _ _ g (ground arith), tt)
plan-Fits env (Op.vgremove vg_name extra) g = (lvm_call-Fits _ _ g (ground arith), tt)
plan-Fits env (Op.vgrename old_vg_name new_vg_name extra) g =
    (lvm_call-Fits _ _ g (ground arith), tt)
plan-Fits env (Op.vgactivate vg_name extra) g = (lvm_call-Fits _ _ g (ground arith), tt)
plan-Fits env (Op.vgdeactivate vg_name extra) g = (lvm_call-Fits _ _ g (ground arith), tt)
plan-Fits env (Op.vgextend vg_name device extra) g = (lvm_call-Fits _ _ g (ground arith), tt)
plan-Fits env (Op.vgreduce vg_name device extra) g = (lvm_call-Fits _ _ g (ground arith), tt)
plan-Fits env (Op.add_vg_tags vg_name tags) g =
    (lvm_call-Fits _ _ g (tags_fit vg_name tags (codes "--addtag") (codes "vgchange")), tt)
plan-Fits env (Op.delete_vg_tags vg_name tags) g =
    (lvm_call-Fits _ _ g (tags_fit vg_name tags (codes "--deltag") (codes "vgchange")), tt)
plan-Fits env (Op.vglock_start vg_name extra) g = (lvm_call-Fits _ _ g (ground arith), tt)
plan-Fits env (Op.vglock_stop vg_name extra) g = (lvm_call-Fits _ _ g (ground arith), tt)
plan-Fits env (Op.lvcreate vg_name lv_name size type pv_list extra) g =
    (lvm_call-Fits _ _ g (lvcreate_fits _ _ _ _ _), tt)
plan-Fits env (Op.lvremove vg_name lv_name force extra) g = (lvm_call-Fits _ _ g (ground arith), tt)
plan-Fits env (Op.lvrename vg_name lv_name new_name extra) g =
    (lvm_call-Fits _ _ g (ground arith), tt)
plan-Fits env (Op.lvresize vg_name lv_name size extra) g = (lvm_call-Fits _ _ g (ground arith), tt)
plan-Fits env (Op.lvrepair vg_name lv_name pv_list extra) g =
    (lvm_call-Fits _ _ g (ground arith), tt)
plan-Fits env (Op.lvactivate vg_name lv_name ignore_skip shared extra) g =
    (lvm_call-Fits _ _ g (ground arith), tt)
plan-Fits env (Op.lvdeactivate vg_name lv_name extra) g = (lvm_call-Fits _ _ g (ground arith), tt)
plan-Fits env (Op.lvsnapshotcreate vg_name origin_name snapshot_name size extra) g =
    (lvm_call-Fits _ _ g (ground arith), tt)
plan-Fits env (Op.lvsnapshotmerge vg_name snapshot_name extra) g =
    (lvm_call-Fits _ _ g (ground arith), tt)
plan-Fits env (Op.add_lv_tags vg_name lv_name tags) g = (
  lvm_call-Fits _ _ g (tags_fit (spec vg_name lv_name) tags (codes "--addtag") (codes "lvchange")),
  tt,
)
plan-Fits env (Op.delete_lv_tags vg_name lv_name tags) g = (
  lvm_call-Fits _ _ g (tags_fit (spec vg_name lv_name) tags (codes "--deltag") (codes "lvchange")),
  tt,
)
plan-Fits env (Op.thpoolcreate vg_name lv_name size md_size chunk_size profile extra) g =
    (lvm_call-Fits _ _ g (ground arith), tt)
plan-Fits env (Op.thlvcreate vg_name pool_name lv_name size extra) g =
    (lvm_call-Fits _ _ g (ground arith), tt)
plan-Fits env (Op.thsnapshotcreate vg_name origin_name snapshot_name pool_name extra) g =
    (lvm_call-Fits _ _ g (ground arith), tt)
plan-Fits env (Op.cache_attach vg_name data_lv cache_pool_lv extra) g =
    (lvm_call-Fits _ _ g (ground arith), tt)
plan-Fits env (Op.cache_detach vg_name cached_lv destroy extra) g =
    (lvm_call-Fits _ _ g (ground arith), tt)
plan-Fits env (Op.cache_create_pool vg_name pool_name pool_size md_size mode flags fast_pvs) g = (
  lvm_call-Fits _ _ g (lvcreate_fits _ _ _ _ _),
  (
    lvm_call-Fits _ _ g (lvcreate_fits _ _ _ _ _),
    planned-Fits (cache_get_mode_str mode) _ (λ m. (lvm_call-Fits _ _ g (ground arith), tt)),
  ),
)
plan-Fits env
      (Op.cache_create_cached_lv vg_name lv_name data_size cache_size md_size mode flags slow_pvs
        fast_pvs)
      g =
    (
      lvm_call-Fits _ _ g (lvcreate_fits _ _ _ _ _),
      (
        lvm_call-Fits _ _ g (lvcreate_fits _ _ _ _ _),
        planned_then (cache_get_mode_str mode) _ _ (λ m. (lvm_call-Fits _ _ g (ground arith), tt))
            (
              lvm_call-Fits _ _ g (lvcreate_fits _ _ _ _ _),
              (lvm_call-Fits _ _ g (ground arith), tt),
            ),
      ),
    )
plan-Fits env (Op.writecache_attach vg_name data_lv cache_lv extra) g = (
  lvm_call-Fits _ _ g (ground arith),
  (lvm_call-Fits _ _ g (ground arith), (lvm_call-Fits _ _ g (ground arith), tt)),
)
plan-Fits env (Op.writecache_detach vg_name cached_lv destroy extra) g =
    (lvm_call-Fits _ _ g (ground arith), tt)
plan-Fits env
      (Op.writecache_create_cached_lv vg_name lv_name data_size cache_size slow_pvs fast_pvs) g =
    (
      lvm_call-Fits _ _ g (lvcreate_fits _ _ _ _ _),
      (
        lvm_call-Fits _ _ g (lvcreate_fits _ _ _ _ _),
        (
          lvm_call-Fits _ _ g (ground arith),
          (lvm_call-Fits _ _ g (ground arith), (lvm_call-Fits _ _ g (ground arith), tt)),
        ),
      ),
    )
plan-Fits env (Op.thpool_convert vg_name data_lv metadata_lv name extra) g =
    (lvm_call-Fits _ _ g (ground arith), rename-Fits _ _ name g)
plan-Fits env (Op.cache_pool_convert vg_name data_lv metadata_lv name extra) g =
    (lvm_call-Fits _ _ g (ground arith), rename-Fits _ _ name g)
plan-Fits env
      (Op.vdo_pool_create vg_name lv_name pool_name data_size virtual_size index_memory compression
        deduplication policy extra)
      g =
    planned-Fits (get_vdo_write_policy_str policy) _ (λ p. (lvm_call-Fits _ _ _ (ground arith), tt))
plan-Fits env
      (Op.vdo_pool_convert vg_name pool_lv name virtual_size index_memory compression deduplication
        policy extra)
      g =
    planned-Fits (get_vdo_write_policy_str policy) _ (λ p. (lvm_call-Fits _ _ _ (ground arith), tt))
plan-Fits env (Op.vdo_enable_compression vg_name pool_name extra) g =
    (lvm_call-Fits _ _ g (ground arith), tt)
plan-Fits env (Op.vdo_enable_deduplication vg_name pool_name extra) g =
    (lvm_call-Fits _ _ g (ground arith), tt)
plan-Fits env (Op.vdo_disable_compression vg_name pool_name extra) g =
    (lvm_call-Fits _ _ g (ground arith), tt)
plan-Fits env (Op.vdo_disable_deduplication vg_name pool_name extra) g =
    (lvm_call-Fits _ _ g (ground arith), tt)
plan-Fits env (Op.pvinfo device) g = (lvm_call-Fits _ _ g (ground arith), tt)
plan-Fits env Op.pvs g = (lvm_call-Fits _ _ g (ground arith), tt)
plan-Fits env (Op.vginfo vg_name) g = (lvm_call-Fits _ _ g (ground arith), tt)
plan-Fits env Op.vgs g = (lvm_call-Fits _ _ g (ground arith), tt)
plan-Fits env (Op.lvorigin vg_name lv_name) g = (lvm_call-Fits _ _ g (ground arith), tt)
plan-Fits env (Op.thlvpoolname vg_name lv_name) g = (lvm_call-Fits _ _ g (ground arith), tt)
plan-Fits env (Op.vdolvpoolname vg_name lv_name) g = (lvm_call-Fits _ _ g (ground arith), tt)
plan-Fits env (Op.cache_pool_name vg_name cached_lv) g = (lvm_call-Fits _ _ g (ground arith), tt)
plan-Fits env (Op.lvinfo vg_name lv_name) g = (lvm_call-Fits _ _ g (ground arith), tt)
plan-Fits env (Op.lvinfo_tree vg_name lv_name) g = (lvm_call-Fits _ _ g (ground arith), tt)
plan-Fits env (Op.lvs vg_name) g = (lvm_call-Fits _ _ g (ground arith), tt)
plan-Fits env (Op.lvs_tree vg_name) g = (lvm_call-Fits _ _ g (ground arith), tt)
plan-Fits env (Op.vdo_info vg_name lv_name) g = (lvm_call-Fits _ _ g (ground arith), tt)
plan-Fits env (Op.vdo_resize vg_name lv_name size extra) g =
    (lvm_call-Fits _ _ g (ground arith), tt)
plan-Fits env (Op.vdo_pool_resize vg_name pool_name size extra) g =
    (lvm_call-Fits _ _ g (ground arith), (lvm_call-Fits _ _ g (ground arith), tt))
