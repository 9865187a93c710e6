-- ===== src/Zfs/Machine/Words.antt =====
-- What each operation of src/plugins/zfs.c may put on the command line: the option words of the
-- operation, in order, and the strings that the caller gives as they are, which are the directories to
-- search and the extra arguments.
use libblockdev.Base.{List, [], ◌∷◌, ◌++◌, Bytes, codes}
use libblockdev.Zfs.Pool.{dirs_of}
use libblockdev.Zfs.Pool.Guards.{extra_of}
use libblockdev.Zfs.Ops.{flag}
use libblockdev.Zfs.Safety.Shape.{dir_words}
use libblockdev.Zfs.Safety.Datasets.{mount_words}
use libblockdev.Zfs.Safety.Keys.{load_words, change_words}
use libblockdev.Zfs.Machine.{Op}

unfoldable pub words : Op → List Bytes
words (Op.pool_destroy name force) = flag force (codes "-f")
words (Op.pool_export name force) = flag force (codes "-f")
words (Op.pool_scrub_start name) = []
words (Op.pool_scrub_stop name) = codes "-s" ∷ []
words (Op.pool_scrub_pause name) = codes "-p" ∷ []
words (Op.pool_upgrade name) = []
words (Op.pool_history name) = []
words (Op.pool_create name vdevs level extra) = []
words (Op.pool_import name new_name dirs force extra) =
    flag force (codes "-f") ++ (dir_words (dirs_of dirs) ++ [])
words Op.pool_list = codes "-H" ∷ codes "-p" ∷ codes "-o" ∷ []
words (Op.pool_get_info name) = codes "-H" ∷ codes "-p" ∷ codes "-o" ∷ []
words (Op.pool_get_property name property) = codes "-H" ∷ codes "-p" ∷ []
words (Op.pool_set_property name property value) = []
words (Op.pool_get_properties name) = codes "-H" ∷ codes "-p" ∷ []
words (Op.pool_remove_vdev name vdev) = []
words (Op.pool_attach name existing new) = []
words (Op.pool_detach name vdev) = []
words (Op.pool_replace name old new force) = flag force (codes "-f")
words (Op.pool_online name vdev expand) = flag expand (codes "-e")
words (Op.pool_offline name vdev temporary) = flag temporary (codes "-t")
words (Op.pool_trim_start name vdev) = []
words (Op.pool_trim_stop name vdev) = codes "-s" ∷ []
words (Op.pool_clear name vdev) = []
words (Op.pool_add_vdev name vdevs level extra) = []
words (Op.dataset_destroy name recursive force) =
    flag recursive (codes "-r") ++ flag force (codes "-f")
words (Op.dataset_rename name new create_parent force) =
    flag create_parent (codes "-p") ++ flag force (codes "-f")
words (Op.dataset_unmount name force) = flag force (codes "-f")
words (Op.dataset_inherit_property name property) = []
words (Op.dataset_create name extra) = []
words (Op.dataset_list parent recursive) =
    codes "-H" ∷ codes "-p" ∷ codes "-t" ∷ (flag recursive (codes "-r") ++ (codes "-o" ∷ []))
words (Op.dataset_get_info name) = codes "-H" ∷ codes "-p" ∷ codes "-t" ∷ codes "-o" ∷ []
words (Op.dataset_mount name mountpoint extra) = mount_words mountpoint ++ []
words (Op.dataset_get_property name property) = codes "-H" ∷ codes "-p" ∷ []
words (Op.dataset_set_property name property value) = []
words (Op.dataset_get_properties name) = codes "-H" ∷ codes "-p" ∷ []
words (Op.snapshot_destroy name recursive) = flag recursive (codes "-r")
words (Op.snapshot_rollback name force destroy_newer) =
    flag force (codes "-f") ++ flag destroy_newer (codes "-r")
words (Op.bookmark_create snapshot bookmark) = []
words (Op.bookmark_destroy name) = []
words (Op.snapshot_promote clone) = []
words (Op.snapshot_hold snapshot tag) = []
words (Op.snapshot_release snapshot tag) = []
words (Op.snapshot_create name recursive extra) = flag recursive (codes "-r") ++ []
words (Op.snapshot_list dataset recursive) =
    codes "-H" ∷ codes "-p" ∷ codes "-t" ∷ (flag recursive (codes "-r") ++ (codes "-o" ∷ []))
words (Op.snapshot_clone snapshot clone extra) = []
words (Op.bookmark_list dataset) = codes "-H" ∷ codes "-p" ∷ codes "-t" ∷ codes "-o" ∷ []
words (Op.encryption_unload_key dataset) = []
words (Op.encryption_load_key dataset k) = load_words k
words (Op.encryption_change_key dataset k extra) = change_words k
words (Op.encryption_key_status dataset) = codes "-H" ∷ codes "-p" ∷ codes "-o" ∷ []
words (Op.zvol_destroy name recursive force) =
    flag recursive (codes "-r") ++ flag force (codes "-f")
words (Op.zvol_create name size sparse extra) = codes "-V" ∷ (flag sparse (codes "-s") ++ [])
words (Op.zvol_resize name size) = []
words (Op.pool_get_vdevs name) = codes "-P" ∷ []
words (Op.pool_scrub_status name) = []
words Op.pool_list_importable = []

unfoldable pub trusted : Op → List Bytes
trusted (Op.pool_create name vdevs level extra) = extra_of extra
trusted (Op.pool_import name new_name dirs force extra) = dirs_of dirs ++ extra_of extra
trusted (Op.pool_add_vdev name vdevs level extra) = extra_of extra
trusted (Op.dataset_create name extra) = extra_of extra
trusted (Op.dataset_mount name mountpoint extra) = extra_of extra
trusted (Op.snapshot_create name recursive extra) = extra_of extra
trusted (Op.snapshot_clone snapshot clone extra) = extra_of extra
trusted (Op.encryption_change_key dataset k extra) = extra_of extra
trusted (Op.zvol_create name size sparse extra) = extra_of extra
trusted o = []
