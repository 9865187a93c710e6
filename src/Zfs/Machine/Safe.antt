-- ===== src/Zfs/Machine/Safe.antt =====
-- How each operation of src/plugins/zfs.c ends: the program that is run, and the error.
use libblockdev.Base.{Option, none, some, List, ◌≡◌, ◌≢◌, refl, ◌⊎◌}
use libblockdev.Zfs.Pool.{Argv}
use libblockdev.Zfs.Ops.{Call, World, Env, M}
use libblockdev.Zfs.Machine.{
  Op, op, Ending, succeeded, failed, freed_used, dropped, discard, judged, judge, perform, handle,
  fresh, step,
}
use libblockdev.Zfs.Machine.Words.{words, trusted}
use libblockdev.Zfs.Safety.Shape.{IsFine}
use libblockdev.Zfs.Safety.Rules.{Runs, Ended, OneMore, Quiet, Sound}
use libblockdev.Zfs.Safety.Pools.{
  pool_destroy-Runs, pool_export-Runs, pool_scrub_start-Runs, pool_scrub_stop-Runs,
  pool_scrub_pause-Runs, pool_upgrade-Runs, pool_history-Runs, pool_create-Runs, pool_import-Runs,
  pool_list-Runs, pool_get_info-Runs, pool_get_property-Runs, pool_set_property-Runs,
  pool_get_properties-Runs,
}
use libblockdev.Zfs.Safety.Vdevs.{
  pool_remove_vdev-Runs, pool_attach-Runs, pool_detach-Runs, pool_replace-Runs, pool_online-Runs,
  pool_offline-Runs, pool_trim_start-Runs, pool_trim_stop-Runs, pool_clear-Runs, pool_add_vdev-Runs,
}
use libblockdev.Zfs.Safety.Datasets.{
  dataset_destroy-Runs, dataset_rename-Runs, dataset_unmount-Runs, dataset_inherit_property-Runs,
  dataset_create-Runs, dataset_list-Runs, dataset_get_info-Runs, dataset_mount-Runs,
  dataset_get_property-Runs, dataset_set_property-Runs, dataset_get_properties-Runs,
}
use libblockdev.Zfs.Safety.Snapshots.{
  snapshot_destroy-Runs, snapshot_rollback-Runs, bookmark_create-Runs, bookmark_destroy-Runs,
  snapshot_promote-Runs, snapshot_hold-Runs, snapshot_release-Runs, snapshot_create-Runs,
  snapshot_list-Runs, snapshot_clone-Runs, bookmark_list-Runs,
}
use libblockdev.Zfs.Safety.Keys.{
  encryption_unload_key-Runs, encryption_load_key-Runs, encryption_change_key-Runs,
  encryption_key_status-Runs,
}
use libblockdev.Zfs.Safety.Zvols.{zvol_destroy-Runs, zvol_create-Runs, zvol_resize-Runs}
use libblockdev.Zfs.Safety.Trees.{
  pool_get_vdevs-Runs, pool_scrub_status-Runs, pool_list_importable-Runs,
}

pub dropped-Sound : {A : Type 0} (x : World × Option A) → Sound x.0 → Sound (dropped x).0
dropped-Sound (w, none) s = s
dropped-Sound (w, some a) s = s

judged-Sound : {A : Type 0} (x : World × Option (Option A)) → Sound x.0 → Sound (judged x).0
judged-Sound (w, none) s = s
judged-Sound (w, some none) s = s
judged-Sound (w, some (some a)) s = s

-- An operation runs only arrays with its own option words, and what the caller gives on purpose.
abbrev pub IsOf : Op → Argv → Type 0
IsOf o = IsFine (words o) (trusted o)

-- How one operation ends: with success, one more program run and no error; or with an error, and at
-- most one more program run; both times behind at most two runs of `zfs version`. Only the list of
-- importable pools may use memory that was freed.
abbrev pub EndsWell : Op → List Call → World × Ending → Type 0
EndsWell o calls (w, succeeded) = OneMore 2 (IsOf o) calls w × (w.plugin.error ≡ none)
EndsWell o calls (w, failed) =
    (Quiet 2 calls w ⊎ OneMore 2 (IsOf o) calls w) × (w.plugin.error ≢ none)
EndsWell o calls (w, freed_used) = OneMore 2 (IsOf o) calls w × (o ≡ Op.pool_list_importable)

pub record Performs (o : Op) (m : World → World × Ending) : Type 0 where
  pub holds : (w : World) → w.plugin.error ≡ none → EndsWell o w.calls (m w)
  pub keeps : (w : World) → w.plugin.error ≡ none → Sound w → Sound (m w).0

dropped-EndsWell :
    {A : Type 0} (o : Op) (calls : List Call) (x : World × Option A)
    → Ended 2 (IsOf o) calls x
    → EndsWell o calls (dropped x)
dropped-EndsWell o calls (w, none) e = e
dropped-EndsWell o calls (w, some a) e = e

discard-Performs : {A : Type 0} {o : Op} {m : M A} → Runs (IsOf o) m → Performs o (discard m)
unfolding discard
discard-Performs {o} {m} r = record {
  holds = λ w clean. dropped-EndsWell o w.calls (m w) (r.holds w clean);
  keeps = λ w clean s. dropped-Sound (m w) (r.keeps w clean s);
}

judged-EndsWell :
    {A : Type 0} (calls : List Call) (x : World × Option (Option A))
    → Ended 2 (IsOf Op.pool_list_importable) calls x
    → EndsWell Op.pool_list_importable calls (judged x)
judged-EndsWell calls (w, none) e = e
judged-EndsWell calls (w, some none) (run, clean) = (run, refl)
judged-EndsWell calls (w, some (some a)) e = e

judge-Performs :
    {A : Type 0} {m : M (Option A)}
    → Runs (IsOf Op.pool_list_importable) m
    → Performs Op.pool_list_importable (judge m)
unfolding judge
judge-Performs {m} r = record {
  holds = λ w clean. judged-EndsWell w.calls (m w) (r.holds w clean);
  keeps = λ w clean s. judged-Sound (m w) (r.keeps w clean s);
}

pub perform-Performs : (env : Env) (o : Op) → Performs o (perform env o)
unfolding perform words trusted
perform-Performs env (Op.pool_destroy name force) =
    discard-Performs (pool_destroy-Runs env name force)
perform-Performs env (Op.pool_export name force) =
    discard-Performs (pool_export-Runs env name force)
perform-Performs env (Op.pool_scrub_start name) = discard-Performs (pool_scrub_start-Runs env name)
perform-Performs env (Op.pool_scrub_stop name) = discard-Performs (pool_scrub_stop-Runs env name)
perform-Performs env (Op.pool_scrub_pause name) = discard-Performs (pool_scrub_pause-Runs env name)
perform-Performs env (Op.pool_upgrade name) = discard-Performs (pool_upgrade-Runs env name)
perform-Performs env (Op.pool_history name) = discard-Performs (pool_history-Runs env name)
perform-Performs env (Op.pool_create name vdevs level extra) =
    discard-Performs (pool_create-Runs env name vdevs level extra)
perform-Performs env (Op.pool_import name new_name dirs force extra) =
    discard-Performs (pool_import-Runs env name new_name dirs force extra)
perform-Performs env Op.pool_list = discard-Performs (pool_list-Runs env)
perform-Performs env (Op.pool_get_info name) = discard-Performs (pool_get_info-Runs env name)
perform-Performs env (Op.pool_get_property name property) =
    discard-Performs (pool_get_property-Runs env name property)
perform-Performs env (Op.pool_set_property name property value) =
    discard-Performs (pool_set_property-Runs env name property value)
perform-Performs env (Op.pool_get_properties name) =
    discard-Performs (pool_get_properties-Runs env name)
perform-Performs env (Op.pool_remove_vdev name vdev) =
    discard-Performs (pool_remove_vdev-Runs env name vdev)
perform-Performs env (Op.pool_attach name existing new) =
    discard-Performs (pool_attach-Runs env name existing new)
perform-Performs env (Op.pool_detach name vdev) = discard-Performs (pool_detach-Runs env name vdev)
perform-Performs env (Op.pool_replace name old new force) =
    discard-Performs (pool_replace-Runs env name old new force)
perform-Performs env (Op.pool_online name vdev expand) =
    discard-Performs (pool_online-Runs env name vdev expand)
perform-Performs env (Op.pool_offline name vdev temporary) =
    discard-Performs (pool_offline-Runs env name vdev temporary)
perform-Performs env (Op.pool_trim_start name vdev) =
    discard-Performs (pool_trim_start-Runs env name vdev)
perform-Performs env (Op.pool_trim_stop name vdev) =
    discard-Performs (pool_trim_stop-Runs env name vdev)
perform-Performs env (Op.pool_clear name vdev) = discard-Performs (pool_clear-Runs env name vdev)
perform-Performs env (Op.pool_add_vdev name vdevs level extra) =
    discard-Performs (pool_add_vdev-Runs env name vdevs level extra)
perform-Performs env (Op.dataset_destroy name recursive force) =
    discard-Performs (dataset_destroy-Runs env name recursive force)
perform-Performs env (Op.dataset_rename name new create_parent force) =
    discard-Performs (dataset_rename-Runs env name new create_parent force)
perform-Performs env (Op.dataset_unmount name force) =
    discard-Performs (dataset_unmount-Runs env name force)
perform-Performs env (Op.dataset_inherit_property name property) =
    discard-Performs (dataset_inherit_property-Runs env name property)
perform-Performs env (Op.dataset_create name extra) =
    discard-Performs (dataset_create-Runs env name extra)
perform-Performs env (Op.dataset_list parent recursive) =
    discard-Performs (dataset_list-Runs env parent recursive)
perform-Performs env (Op.dataset_get_info name) = discard-Performs (dataset_get_info-Runs env name)
perform-Performs env (Op.dataset_mount name mountpoint extra) =
    discard-Performs (dataset_mount-Runs env name mountpoint extra)
perform-Performs env (Op.dataset_get_property name property) =
    discard-Performs (dataset_get_property-Runs env name property)
perform-Performs env (Op.dataset_set_property name property value) =
    discard-Performs (dataset_set_property-Runs env name property value)
perform-Performs env (Op.dataset_get_properties name) =
    discard-Performs (dataset_get_properties-Runs env name)
perform-Performs env (Op.snapshot_destroy name recursive) =
    discard-Performs (snapshot_destroy-Runs env name recursive)
perform-Performs env (Op.snapshot_rollback name force destroy_newer) =
    discard-Performs (snapshot_rollback-Runs env name force destroy_newer)
perform-Performs env (Op.bookmark_create snapshot bookmark) =
    discard-Performs (bookmark_create-Runs env snapshot bookmark)
perform-Performs env (Op.bookmark_destroy name) = discard-Performs (bookmark_destroy-Runs env name)
perform-Performs env (Op.snapshot_promote clone) =
    discard-Performs (snapshot_promote-Runs env clone)
perform-Performs env (Op.snapshot_hold snapshot tag) =
    discard-Performs (snapshot_hold-Runs env snapshot tag)
perform-Performs env (Op.snapshot_release snapshot tag) =
    discard-Performs (snapshot_release-Runs env snapshot tag)
perform-Performs env (Op.snapshot_create name recursive extra) =
    discard-Performs (snapshot_create-Runs env name recursive extra)
perform-Performs env (Op.snapshot_list dataset recursive) =
    discard-Performs (snapshot_list-Runs env dataset recursive)
perform-Performs env (Op.snapshot_clone snapshot clone extra) =
    discard-Performs (snapshot_clone-Runs env snapshot clone extra)
perform-Performs env (Op.bookmark_list dataset) = discard-Performs (bookmark_list-Runs env dataset)
perform-Performs env (Op.encryption_unload_key dataset) =
    discard-Performs (encryption_unload_key-Runs env dataset)
perform-Performs env (Op.encryption_load_key dataset k) =
    discard-Performs (encryption_load_key-Runs env dataset k)
perform-Performs env (Op.encryption_change_key dataset k extra) =
    discard-Performs (encryption_change_key-Runs env dataset k extra)
perform-Performs env (Op.encryption_key_status dataset) =
    discard-Performs (encryption_key_status-Runs env dataset)
perform-Performs env (Op.zvol_destroy name recursive force) =
    discard-Performs (zvol_destroy-Runs env name recursive force)
perform-Performs env (Op.zvol_create name size sparse extra) =
    discard-Performs (zvol_create-Runs env name size sparse extra)
perform-Performs env (Op.zvol_resize name size) = discard-Performs (zvol_resize-Runs env name size)
perform-Performs env (Op.pool_get_vdevs name) = discard-Performs (pool_get_vdevs-Runs env name)
perform-Performs env (Op.pool_scrub_status name) =
    discard-Performs (pool_scrub_status-Runs env name)
perform-Performs env Op.pool_list_importable = judge-Performs (pool_list_importable-Runs env)

-- Each operation of the plugin, called with its error cleared, in any state and whatever the programs
-- answer. Where it succeeds, no error is set, and behind at most two runs of `zfs version` exactly one
-- program was run. Where it fails, an error is set, and behind at most two runs of `zfs version` at most
-- one program was run. Only `pool_list_importable` may end otherwise, with a use of memory that it has
-- freed. The array of the program holds the option words of the operation and the strings that the
-- caller gives on purpose, each once and in order, besides them and behind `--` only strings that are not
-- empty and begin with no dash, and it fits with its closing NULL into the slots that were allocated.
pub step-EndsWell : (env : Env) (o : Op) (w : World) → EndsWell o w.calls (step env (op o) w)
unfolding step handle
step-EndsWell env o w = (perform-Performs env o).holds (fresh w) refl
