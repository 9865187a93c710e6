-- ===== src/Lvm/Ops/Volumes.antt =====
-- src/plugins/lvm/lvm.c: the operations on physical volumes and volume groups.
use libblockdev.Base.{
  ℕ, ◌+◌, ◌*◌, Option, none, some, List, [], ◌∷◌, ◌++◌, Bool, Bytes, if◌then◌else◌, ◌==◌, length,
  codes,
}
use libblockdev.Utils.Args.{ExtraArg}
use libblockdev.Utils.Commands.{Argv}
use libblockdev.Lvm.Calc.{resolve_pe_size}
use libblockdev.Lvm.Data.{split_last}
use libblockdev.Lvm.Ops.{
  Env, M, optional, slots_for, in_kib, size_arg, call_lvm_and_report_error,
  call_lvm_and_report_progress,
}

-- `pv_list ? g_strv_length (pv_list) : 0`, and the names.
abbrev pub listed : Option (List Bytes) → List Bytes
listed none = []
listed (some names) = names

abbrev pub tag_words : Bytes → List Bytes → List Bytes
tag_words action [] = []
tag_words action (tag ∷ tags) = action ∷ tag ∷ tag_words action tags

unfoldable pub manage_lvm_tags_args : Bytes → List Bytes → Bytes → Bytes → Argv
manage_lvm_tags_args devspec tags action cmd =
    slots_for (2 * length tags + 3) (cmd ∷ (tag_words action tags ++ (devspec ∷ [])))

-- The number behind the last blank of a line.
unfoldable pub extract_pvmove_progress : (Bytes → Option ℕ) → Bytes → Option ℕ
unfolding split_last
extract_pvmove_progress scan_hhu line = elim (split_last b' ' line) [
  | none ↦ none
  | some (_, num_start) ↦ scan_hhu num_start
]

unfoldable pub pvcreate_args : Bytes → ℕ → ℕ → Argv
pvcreate_args device data_alignment metadata_size = slots_for 5 (
    codes "pvcreate"
    ∷ device
    ∷ (size_arg (codes "--dataalignment=") data_alignment
        ++ size_arg (codes "--metadatasize=") metadata_size))

unfoldable pub pvcreate : Env → Bytes → ℕ → ℕ → Option (List ExtraArg) → M (Unit {0})
unfolding pvcreate_args
pvcreate env device data_alignment metadata_size extra =
    call_lvm_and_report_error env (pvcreate_args device data_alignment metadata_size) extra

unfoldable pub pvresize_args : Bytes → ℕ → Argv
pvresize_args device size = slots_for 6 (
    codes "pvresize"
    ∷ codes "-y"
    ∷ ((if size == 0 then [] else codes "--setphysicalvolumesize" ∷ in_kib size ∷ [])
        ++ (device ∷ [])))

unfoldable pub pvresize : Env → Bytes → ℕ → Option (List ExtraArg) → M (Unit {0})
unfolding pvresize_args
pvresize env device size extra = call_lvm_and_report_error env (pvresize_args device size) extra

unfoldable pub pvremove_args : Bytes → Argv
pvremove_args device =
    slots_for 6 (codes "pvremove" ∷ codes "--force" ∷ codes "--force" ∷ codes "--yes" ∷ device ∷ [])

unfoldable pub pvremove : Env → Bytes → Option (List ExtraArg) → M (Unit {0})
unfolding pvremove_args
pvremove env device extra = call_lvm_and_report_error env (pvremove_args device) extra

unfoldable pub pvmove_args : Bytes → Option Bytes → Argv
pvmove_args src dest = slots_for 6 (codes "pvmove" ∷ codes "-i" ∷ codes "1" ∷ src ∷ (optional dest))

unfoldable pub pvmove : Env → Bytes → Option Bytes → Option (List ExtraArg) → M (Unit {0})
unfolding pvmove_args extract_pvmove_progress
pvmove env src dest extra =
    call_lvm_and_report_progress env (pvmove_args src dest) extra
      (extract_pvmove_progress env.scan_hhu)

unfoldable pub pvscan_args : Option Bytes → Bool → Argv
pvscan_args device update_cache =
    slots_for 4 (codes "pvscan" ∷ (if update_cache then codes "--cache" ∷ optional device else []))

unfoldable pub pvscan : Env → Option Bytes → Bool → Option (List ExtraArg) → M (Unit {0})
unfolding pvscan_args
pvscan env device update_cache extra =
    call_lvm_and_report_error env (pvscan_args device update_cache) extra

unfoldable pub add_pv_tags_args : Bytes → List Bytes → Argv
unfolding manage_lvm_tags_args
add_pv_tags_args device tags =
    manage_lvm_tags_args device tags (codes "--addtag") (codes "pvchange")

unfoldable pub add_pv_tags : Env → Bytes → List Bytes → M (Unit {0})
unfolding add_pv_tags_args
add_pv_tags env device tags = call_lvm_and_report_error env (add_pv_tags_args device tags) none

unfoldable pub delete_pv_tags_args : Bytes → List Bytes → Argv
unfolding manage_lvm_tags_args
delete_pv_tags_args device tags =
    manage_lvm_tags_args device tags (codes "--deltag") (codes "pvchange")

unfoldable pub delete_pv_tags : Env → Bytes → List Bytes → M (Unit {0})
unfolding delete_pv_tags_args
delete_pv_tags env device tags =
    call_lvm_and_report_error env (delete_pv_tags_args device tags) none

unfoldable pub vgcreate_args : Bytes → Option (List Bytes) → ℕ → Argv
unfolding resolve_pe_size
vgcreate_args name pv_list pe_size =
    slots_for (length (listed pv_list) + 5)
      (codes "vgcreate" ∷ codes "-s" ∷ in_kib (resolve_pe_size pe_size) ∷ name ∷ (listed pv_list))

unfoldable pub vgcreate :
    Env → Bytes → Option (List Bytes) → ℕ → Option (List ExtraArg) → M (Unit {0})
unfolding vgcreate_args
vgcreate env name pv_list pe_size extra =
    call_lvm_and_report_error env (vgcreate_args name pv_list pe_size) extra

unfoldable pub vgremove_args : Bytes → Argv
vgremove_args vg_name = slots_for 4 (codes "vgremove" ∷ codes "--force" ∷ vg_name ∷ [])

unfoldable pub vgremove : Env → Bytes → Option (List ExtraArg) → M (Unit {0})
unfolding vgremove_args
vgremove env vg_name extra = call_lvm_and_report_error env (vgremove_args vg_name) extra

unfoldable pub vgrename_args : Bytes → Bytes → Argv
vgrename_args old_vg_name new_vg_name =
    slots_for 4 (codes "vgrename" ∷ old_vg_name ∷ new_vg_name ∷ [])

unfoldable pub vgrename : Env → Bytes → Bytes → Option (List ExtraArg) → M (Unit {0})
unfolding vgrename_args
vgrename env old_vg_name new_vg_name extra =
    call_lvm_and_report_error env (vgrename_args old_vg_name new_vg_name) extra

unfoldable pub vgactivate_args : Bytes → Argv
vgactivate_args vg_name = slots_for 4 (codes "vgchange" ∷ codes "-ay" ∷ vg_name ∷ [])

unfoldable pub vgactivate : Env → Bytes → Option (List ExtraArg) → M (Unit {0})
unfolding vgactivate_args
vgactivate env vg_name extra = call_lvm_and_report_error env (vgactivate_args vg_name) extra

unfoldable pub vgdeactivate_args : Bytes → Argv
vgdeactivate_args vg_name = slots_for 4 (codes "vgchange" ∷ codes "-an" ∷ vg_name ∷ [])

unfoldable pub vgdeactivate : Env → Bytes → Option (List ExtraArg) → M (Unit {0})
unfolding vgdeactivate_args
vgdeactivate env vg_name extra = call_lvm_and_report_error env (vgdeactivate_args vg_name) extra

unfoldable pub vgextend_args : Bytes → Bytes → Argv
vgextend_args vg_name device = slots_for 4 (codes "vgextend" ∷ vg_name ∷ device ∷ [])

unfoldable pub vgextend : Env → Bytes → Bytes → Option (List ExtraArg) → M (Unit {0})
unfolding vgextend_args
vgextend env vg_name device extra =
    call_lvm_and_report_error env (vgextend_args vg_name device) extra

unfoldable pub vgreduce_args : Bytes → Option Bytes → Argv
vgreduce_args vg_name device = slots_for 5 (
    codes "vgreduce" ∷ (elim device [
      | none ↦ codes "--removemissing" ∷ codes "--force" ∷ vg_name ∷ []
      | some d ↦ vg_name ∷ d ∷ []
    ]))

unfoldable pub vgreduce : Env → Bytes → Option Bytes → Option (List ExtraArg) → M (Unit {0})
unfolding vgreduce_args
vgreduce env vg_name device extra =
    call_lvm_and_report_error env (vgreduce_args vg_name device) extra

unfoldable pub add_vg_tags_args : Bytes → List Bytes → Argv
unfolding manage_lvm_tags_args
add_vg_tags_args vg_name tags =
    manage_lvm_tags_args vg_name tags (codes "--addtag") (codes "vgchange")

unfoldable pub add_vg_tags : Env → Bytes → List Bytes → M (Unit {0})
unfolding add_vg_tags_args
add_vg_tags env vg_name tags = call_lvm_and_report_error env (add_vg_tags_args vg_name tags) none

unfoldable pub delete_vg_tags_args : Bytes → List Bytes → Argv
unfolding manage_lvm_tags_args
delete_vg_tags_args vg_name tags =
    manage_lvm_tags_args vg_name tags (codes "--deltag") (codes "vgchange")

unfoldable pub delete_vg_tags : Env → Bytes → List Bytes → M (Unit {0})
unfolding delete_vg_tags_args
delete_vg_tags env vg_name tags =
    call_lvm_and_report_error env (delete_vg_tags_args vg_name tags) none

unfoldable pub vglock_start_args : Bytes → Argv
vglock_start_args vg_name = slots_for 4 (codes "vgchange" ∷ codes "--lockstart" ∷ vg_name ∷ [])

unfoldable pub vglock_start : Env → Bytes → Option (List ExtraArg) → M (Unit {0})
unfolding vglock_start_args
vglock_start env vg_name extra = call_lvm_and_report_error env (vglock_start_args vg_name) extra

unfoldable pub vglock_stop_args : Bytes → Argv
vglock_stop_args vg_name = slots_for 4 (codes "vgchange" ∷ codes "--lockstop" ∷ vg_name ∷ [])

unfoldable pub vglock_stop : Env → Bytes → Option (List ExtraArg) → M (Unit {0})
unfolding vglock_stop_args
vglock_stop env vg_name extra = call_lvm_and_report_error env (vglock_stop_args vg_name) extra
