-- ===== src/Lvm/Ops/Lists.antt =====
-- src/plugins/lvm/lvm.c (bd_lvm_lvs, bd_lvm_lvs_tree, bd_lvm_vdo_info, bd_lvm_vdo_pool_resize): the lists of
-- logical volumes, and the VDO pools.
pub mod Names
pub mod Segments
pub mod Tree
use libblockdev.Base.{
  ℕ, Option, none, some, List, [], ◌∷◌, ◌++◌, Bool, true, false, Bytes, bytes_eq, any,
  if◌then◌else◌, leb, codes, Result, fail, ok, lvm_not_supported,
}
use libblockdev.Utils.Args.{ExtraArg}
use libblockdev.Lvm.Table.{lines}
use libblockdev.Lvm.Data.{LvData, get_lv_data_from_table, merge_lv_data}
use libblockdev.Lvm.Modes.{VdoPoolData, get_vdo_data_from_table}
use libblockdev.Lvm.Ops.{
  Env, M, ◌>>=◌, ◌>>◌, checked, optional, slots_for, spec, call_lvm_and_capture_output,
}
use libblockdev.Lvm.Ops.Logical.{lvresize}
use libblockdev.Lvm.Ops.Queries.{
  read_all, read_first, parsed, all_in, capture_if_any, lv_args, lv_columns, tree_columns, lvinfo,
}

-- `g_strcmp0 (a, b) == 0`
abbrev pub same_text : Option Bytes → Option Bytes → Bool
same_text none none = true
same_text none (some b) = false
same_text (some a) none = false
same_text (some a) (some b) = bytes_eq a b

abbrev pub same_name : LvData → LvData → Bool
same_name other lv = same_text other.lv_name lv.lv_name

-- An LV with the name of one that is there is dropped.
unfoldable pub add_new : List LvData → LvData → List LvData
add_new lvs lv = if any (λ other. same_name other lv) lvs then lvs else lvs ++ (lv ∷ [])

unfoldable pub without_doubles : List LvData → List LvData → List LvData
unfolding add_new
without_doubles lvs [] = lvs
without_doubles lvs (lv ∷ rest) = without_doubles (add_new lvs lv) rest

unfoldable pub lvs : Env → Option Bytes → M (List LvData)
unfolding capture_if_any read_all get_lv_data_from_table lines without_doubles
lvs env vg_name = do
  output ← capture_if_any env (slots_for 11 (lv_args lv_columns (optional vg_name)))
  checked (
      all_in (λ ls. without_doubles [] (read_all 16 (get_lv_data_from_table env.atoi) ls))
        (codes "Failed to parse information about LVs") output)

-- An LV with the name of one that is there is merged into the first such.
unfoldable pub merge_into : List LvData → LvData → List LvData
unfolding merge_lv_data
merge_into [] lv = lv ∷ []
merge_into (other ∷ lvs) lv =
    let rest = other ∷ merge_into lvs lv in
    if same_name other lv then merge_lv_data other lv ∷ lvs else rest

unfoldable pub merge_all : List LvData → List LvData → List LvData
unfolding merge_into
merge_all lvs [] = lvs
merge_all lvs (lv ∷ rest) = merge_all (merge_into lvs lv) rest

unfoldable pub lvs_tree : Env → Option Bytes → M (List LvData)
unfolding capture_if_any read_all get_lv_data_from_table lines merge_all
lvs_tree env vg_name = do
  output ← capture_if_any env (slots_for 11 (lv_args tree_columns (optional vg_name)))
  checked (
      all_in (λ ls. merge_all [] (read_all 19 (get_lv_data_from_table env.atoi) ls))
        (codes "Failed to parse information about LVs") output)

abbrev pub vdo_columns : Bytes
vdo_columns =
    codes "vdo_operating_mode,vdo_compression_state,vdo_index_state,vdo_write_policy,"
    ++ codes "vdo_index_memory_size,vdo_used_size,vdo_saving_percent,vdo_compression,"
    ++ codes "vdo_deduplication"

unfoldable pub vdo_info : Env → Bytes → Bytes → M VdoPoolData
unfolding call_lvm_and_capture_output read_first get_vdo_data_from_table lines
vdo_info env vg_name lv_name = do
  output ←
      call_lvm_and_capture_output env
        (slots_for 11 (lv_args vdo_columns (spec vg_name lv_name ∷ []))) none
  checked (
      parsed (read_first 9 get_vdo_data_from_table (lines output))
        (codes "Failed to parse information about the VDO LV"))

unfoldable pub vdo_resize : Env → Bytes → Bytes → ℕ → Option (List ExtraArg) → M (Unit {0})
unfolding lvresize
vdo_resize env vg_name lv_name size extra = lvresize env vg_name lv_name size extra

abbrev pub must_grow : LvData → ℕ → Result (Unit {0})
must_grow info size =
    if leb size info.size
    then fail lvm_not_supported
        (codes "Reducing physical size of the VDO pool LV is not supported.")
    else ok tt

unfoldable pub vdo_pool_resize : Env → Bytes → Bytes → ℕ → Option (List ExtraArg) → M (Unit {0})
unfolding lvinfo lvresize
vdo_pool_resize env vg_name pool_name size extra = do
  info ← lvinfo env vg_name pool_name
  checked (must_grow info size)
  lvresize env vg_name pool_name size extra
