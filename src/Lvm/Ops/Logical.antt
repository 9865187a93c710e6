-- ===== src/Lvm/Ops/Logical.antt =====
-- src/plugins/lvm/lvm.c: the operations on logical volumes and their snapshots.
use libblockdev.Base.{
  ℕ, ◌+◌, Option, none, some, List, [], ◌∷◌, ◌++◌, Bool, true, false, Bytes, bytes_eq,
  if◌then◌else◌, length, codes, decimal, Result, ok, err,
}
use libblockdev.Utils.Args.{ExtraArg}
use libblockdev.Utils.Commands.{Argv}
use libblockdev.Utils.Version.{check_util_version}
use libblockdev.Lvm.Ops.{
  Env, World, M, version_run, slots_for, in_kib, spec, flag, call_lvm_and_report_error, lvm_version,
}
use libblockdev.Lvm.Ops.Volumes.{listed, manage_lvm_tags_args}

-- A type, or the number of stripes.
unfoldable pub type_words : Option Bytes → ℕ → List Bytes
unfolding decimal
type_words none n = []
type_words (some type) n =
    if bytes_eq type (codes "striped")
    then codes "--stripes" ∷ decimal n ∷ []
    else codes "--type" ∷ type ∷ []

abbrev is_ok : Result (Unit {0}) → Bool
is_ok (ok u) = true
is_ok (err e) = false

-- Whether `lvm` knows the option `--fs`.
unfoldable pub fs_option : Env → Bool
unfolding check_util_version
fs_option env = is_ok (check_util_version env.fs_tools (lvm_version (codes "2.03.19")))

unfoldable pub lvcreate_args : Bytes → Bytes → ℕ → Option Bytes → Option (List Bytes) → Argv
unfolding type_words
lvcreate_args vg_name lv_name size type pv_list = slots_for (length (listed pv_list) + 10) (
    codes "lvcreate"
    ∷ codes "-n"
    ∷ lv_name
    ∷ codes "-L"
    ∷ in_kib size
    ∷ codes "-y"
    ∷ (type_words type (length (listed pv_list)) ++ (vg_name ∷ listed pv_list)))

unfoldable pub lvcreate :
    Env
    → Bytes
    → Bytes
    → ℕ
    → Option Bytes
    → Option (List Bytes)
    → Option (List ExtraArg)
    → M (Unit {0})
unfolding lvcreate_args
lvcreate env vg_name lv_name size type pv_list extra =
    call_lvm_and_report_error env (lvcreate_args vg_name lv_name size type pv_list) extra

unfoldable pub lvremove_args : Bytes → Bytes → Bool → Argv
lvremove_args vg_name lv_name force = slots_for 5 (
    codes "lvremove"
    ∷ codes "--yes"
    ∷ (flag force (codes "--force") ++ (spec vg_name lv_name ∷ [])))

unfoldable pub lvremove : Env → Bytes → Bytes → Bool → Option (List ExtraArg) → M (Unit {0})
unfolding lvremove_args
lvremove env vg_name lv_name force extra =
    call_lvm_and_report_error env (lvremove_args vg_name lv_name force) extra

unfoldable pub lvrename_args : Bytes → Bytes → Bytes → Argv
lvrename_args vg_name lv_name new_name =
    slots_for 5 (codes "lvrename" ∷ vg_name ∷ lv_name ∷ new_name ∷ [])

unfoldable pub lvrename : Env → Bytes → Bytes → Bytes → Option (List ExtraArg) → M (Unit {0})
unfolding lvrename_args
lvrename env vg_name lv_name new_name extra =
    call_lvm_and_report_error env (lvrename_args vg_name lv_name new_name) extra

-- The version is asked for by each call.
abbrev pub fs_asked : Env → World → World
fs_asked env w = record w {
  checks = w.checks ++ version_run env.fs_tools (lvm_version (codes "2.03.19"));
}

unfoldable pub lvresize_args : Bool → Bytes → Bytes → ℕ → Argv
lvresize_args fs_option vg_name lv_name size = slots_for 8 (
    codes "lvresize"
    ∷ codes "--force"
    ∷ codes "-L"
    ∷ in_kib size
    ∷ (flag fs_option (codes "--fs")
        ++ (flag fs_option (codes "ignore") ++ (spec vg_name lv_name ∷ []))))

unfoldable pub lvresize : Env → Bytes → Bytes → ℕ → Option (List ExtraArg) → M (Unit {0})
unfolding lvresize_args fs_option
lvresize env vg_name lv_name size extra w =
    call_lvm_and_report_error env (lvresize_args (fs_option env) vg_name lv_name size) extra
      (fs_asked env w)

unfoldable pub lvrepair_args : Bytes → Bytes → Option (List Bytes) → Argv
lvrepair_args vg_name lv_name pv_list =
    slots_for (length (listed pv_list) + 5) (
      codes "lvconvert"
      ∷ codes "--repair"
      ∷ codes "--yes"
      ∷ spec vg_name lv_name
      ∷ (listed pv_list))

unfoldable pub lvrepair :
    Env → Bytes → Bytes → Option (List Bytes) → Option (List ExtraArg) → M (Unit {0})
unfolding lvrepair_args
lvrepair env vg_name lv_name pv_list extra =
    call_lvm_and_report_error env (lvrepair_args vg_name lv_name pv_list) extra

unfoldable pub lvactivate_args : Bytes → Bytes → Bool → Bool → Argv
lvactivate_args vg_name lv_name ignore_skip shared = slots_for 5 (
    codes "lvchange"
    ∷ (if shared then codes "-asy" else codes "-ay")
    ∷ (flag ignore_skip (codes "-K") ++ (spec vg_name lv_name ∷ [])))

unfoldable pub lvactivate :
    Env → Bytes → Bytes → Bool → Bool → Option (List ExtraArg) → M (Unit {0})
unfolding lvactivate_args
lvactivate env vg_name lv_name ignore_skip shared extra =
    call_lvm_and_report_error env (lvactivate_args vg_name lv_name ignore_skip shared) extra

unfoldable pub lvdeactivate_args : Bytes → Bytes → Argv
lvdeactivate_args vg_name lv_name =
    slots_for 4 (codes "lvchange" ∷ codes "-an" ∷ spec vg_name lv_name ∷ [])

unfoldable pub lvdeactivate : Env → Bytes → Bytes → Option (List ExtraArg) → M (Unit {0})
unfolding lvdeactivate_args
lvdeactivate env vg_name lv_name extra =
    call_lvm_and_report_error env (lvdeactivate_args vg_name lv_name) extra

unfoldable pub lvsnapshotcreate_args : Bytes → Bytes → Bytes → ℕ → Argv
lvsnapshotcreate_args vg_name origin_name snapshot_name size = slots_for 8 (
    codes "lvcreate"
    ∷ codes "-s"
    ∷ codes "-L"
    ∷ in_kib size
    ∷ codes "-n"
    ∷ snapshot_name
    ∷ spec vg_name origin_name
    ∷ [])

unfoldable pub lvsnapshotcreate :
    Env → Bytes → Bytes → Bytes → ℕ → Option (List ExtraArg) → M (Unit {0})
unfolding lvsnapshotcreate_args
lvsnapshotcreate env vg_name origin_name snapshot_name size extra =
    call_lvm_and_report_error env (lvsnapshotcreate_args vg_name origin_name snapshot_name size)
      extra

unfoldable pub lvsnapshotmerge_args : Bytes → Bytes → Argv
lvsnapshotmerge_args vg_name snapshot_name =
    slots_for 4 (codes "lvconvert" ∷ codes "--merge" ∷ spec vg_name snapshot_name ∷ [])

unfoldable pub lvsnapshotmerge : Env → Bytes → Bytes → Option (List ExtraArg) → M (Unit {0})
unfolding lvsnapshotmerge_args
lvsnapshotmerge env vg_name snapshot_name extra =
    call_lvm_and_report_error env (lvsnapshotmerge_args vg_name snapshot_name) extra

unfoldable pub add_lv_tags_args : Bytes → Bytes → List Bytes → Argv
unfolding manage_lvm_tags_args
add_lv_tags_args vg_name lv_name tags =
    manage_lvm_tags_args (spec vg_name lv_name) tags (codes "--addtag") (codes "lvchange")

unfoldable pub add_lv_tags : Env → Bytes → Bytes → List Bytes → M (Unit {0})
unfolding add_lv_tags_args
add_lv_tags env vg_name lv_name tags =
    call_lvm_and_report_error env (add_lv_tags_args vg_name lv_name tags) none

unfoldable pub delete_lv_tags_args : Bytes → Bytes → List Bytes → Argv
unfolding manage_lvm_tags_args
delete_lv_tags_args vg_name lv_name tags =
    manage_lvm_tags_args (spec vg_name lv_name) tags (codes "--deltag") (codes "lvchange")

unfoldable pub delete_lv_tags : Env → Bytes → Bytes → List Bytes → M (Unit {0})
unfolding delete_lv_tags_args
delete_lv_tags env vg_name lv_name tags =
    call_lvm_and_report_error env (delete_lv_tags_args vg_name lv_name tags) none
