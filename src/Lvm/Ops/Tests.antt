-- ===== src/Lvm/Ops/Tests.antt =====
-- Concrete tables of src/plugins/lvm/lvm.c.
use libblockdev.Base.{some, List, [], ◌∷◌, ◌++◌, true, Bytes, length, codes, ok, ◌≡◌, refl, arith}
use libblockdev.Lvm.Table.{lookup, parse_lvm_vars}
use libblockdev.Lvm.Table.RoundTrip.{var_line, latest, parse_lvm_vars-var_line}
use libblockdev.Lvm.Data.{LvData, get_lv_data_from_table, plain_lv}
use libblockdev.Lvm.Modes.{
  get_vdo_write_policy_from_str, CacheMode, OperatingMode, CompressionState, IndexState,
  WritePolicy, cache_get_mode_from_str, operating_mode_of, compression_state_of, index_state_of,
  write_policy_of, cache_get_mode_str, get_vdo_operating_mode_str, get_vdo_compression_state_str,
  get_vdo_index_state_str, get_vdo_write_policy_str,
}
use libblockdev.Lvm.Modes.RoundTrip.{Names, names_read_back}
use libblockdev.Lvm.Ops.Queries.{read_all}
use libblockdev.Lvm.Ops.Lists.{without_doubles, merge_all}
use libblockdev.Lvm.Ops.Lists.Names.{IsDistinct, lvs_names, has_name, without_doubles-lost}
use libblockdev.Lvm.Ops.Lists.Segments.{segments_of}
use libblockdev.Lvm.Ops.Lists.Tree.{lvs_tree_grouped}

abbrev vars : List (Bytes × Bytes)
vars =
    (codes "LVM2_LV_NAME", codes "root")
    ∷ (codes "LVM2_VG_NAME", codes "vg=1")
    ∷ (codes "LVM2_ORIGIN", [])
    ∷ []

parse_lvm_vars-var_line_example :
    ((parse_lvm_vars (var_line vars)).1 ≡ length vars)
    × (lookup (codes "LVM2_VG_NAME") (parse_lvm_vars (var_line vars)).0
        ≡ latest (codes "LVM2_VG_NAME") vars)
parse_lvm_vars-var_line_example = parse_lvm_vars-var_line vars (codes "LVM2_VG_NAME") (ground arith)

abbrev modes : Names
modes = record {
  cache = CacheMode.writeback;
  operating = OperatingMode.read_only;
  compression = CompressionState.offline;
  index = IndexState.closing;
  policy = WritePolicy.sync;
}

cache_known : cache_get_mode_str CacheMode.writeback ≡ ok (codes "writeback")
unfolding cache_get_mode_str
cache_known = refl

operating_known : get_vdo_operating_mode_str OperatingMode.read_only ≡ ok (codes "read-only")
unfolding get_vdo_operating_mode_str
operating_known = refl

compression_known : get_vdo_compression_state_str CompressionState.offline ≡ ok (codes "offline")
unfolding get_vdo_compression_state_str
compression_known = refl

index_known : get_vdo_index_state_str IndexState.closing ≡ ok (codes "closing")
unfolding get_vdo_index_state_str
index_known = refl

policy_known : get_vdo_write_policy_str WritePolicy.sync ≡ ok (codes "sync")
unfolding get_vdo_write_policy_str
policy_known = refl

names_read_back_example :
    (cache_get_mode_from_str (codes "writeback") ≡ ok CacheMode.writeback)
    × (operating_mode_of (some (codes "read-only")) ≡ OperatingMode.read_only)
    × (compression_state_of (some (codes "offline")) ≡ CompressionState.offline)
    × (index_state_of (some (codes "closing")) ≡ IndexState.closing)
    × (write_policy_of (some (codes "sync")) ≡ WritePolicy.sync)
    × (get_vdo_write_policy_from_str (codes "sync") ≡ ok WritePolicy.sync)
names_read_back_example =
    names_read_back modes (codes "writeback") (codes "read-only") (codes "offline")
      (codes "closing") (codes "sync") cache_known operating_known compression_known index_known
      policy_known

-- An LV `root` of a volume group.
abbrev root : Bytes → LvData
root vg = plain_lv ((codes "LVM2_LV_NAME", codes "root") ∷ (codes "LVM2_VG_NAME", vg) ∷ [])

lvs_names_example :
    IsDistinct (without_doubles [] (root (codes "a") ∷ root (codes "b") ∷ []))
    × (has_name
          (some (codes "root"))
          (without_doubles [] (root (codes "a") ∷ root (codes "b") ∷ []))
        ≡ has_name (some (codes "root")) (root (codes "a") ∷ root (codes "b") ∷ []))
lvs_names_example = lvs_names (root (codes "a") ∷ root (codes "b") ∷ []) (some (codes "root"))

root_known : has_name (root (codes "b")).lv_name (root (codes "a") ∷ []) ≡ true
unfolding plain_lv lookup
root_known = refl

without_doubles-lost_example :
    without_doubles [] ((root (codes "a") ∷ []) ++ (root (codes "b") ∷ []))
    ≡ without_doubles [] ((root (codes "a") ∷ []) ++ [])
without_doubles-lost_example =
    without_doubles-lost [] (root (codes "a") ∷ []) (root (codes "b")) [] root_known

-- Two lines of `lvs` about one volume, on two devices.
abbrev device_line : Bytes → Bytes
device_line devices = var_line (
    (codes "LVM2_LV_NAME", codes "root")
    ∷ (codes "LVM2_DEVICES", devices)
    ∷ (codes "LVM2_SEG_SIZE_PE", codes "5")
    ∷ [])

abbrev two_lines : List Bytes
two_lines = device_line (codes "/dev/sda(0)") ∷ device_line (codes "/dev/sdb(7)") ∷ []

lvs_tree_grouped_example :
    IsDistinct (merge_all [] (read_all 3 (get_lv_data_from_table (λ s. 0)) two_lines))
    × (segments_of
          (some (codes "root"))
          (merge_all [] (read_all 3 (get_lv_data_from_table (λ s. 0)) two_lines))
        ≡ segments_of
            (some (codes "root"))
            (read_all 3 (get_lv_data_from_table (λ s. 0)) two_lines))
lvs_tree_grouped_example = lvs_tree_grouped (λ s. 0) 3 two_lines (some (codes "root"))

two_segments :
    segments_of
      (some (codes "root"))
      (merge_all [] (read_all 3 (get_lv_data_from_table (λ s. 0)) two_lines))
    ≡ record { size_pe = 5; pv_start_pe = 0; pvdev = codes "/dev/sda" }
      ∷ record { size_pe = 5; pv_start_pe = 0; pvdev = codes "/dev/sdb" }
      ∷ []
unfolding segments_of merge_all read_all get_lv_data_from_table
two_segments = refl
