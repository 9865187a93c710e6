-- ===== src/Lvm/Ops/Lists/Tree.antt =====
-- src/plugins/lvm/lvm.c (bd_lvm_lvs_tree): the lines of `lvs` as a tree.
use libblockdev.Base.{
  ℕ, Option, List, [], ◌∷◌, Bytes, All, All-append, ◌==◌, ◌≡◌, Bool-cases, inl, inr, arith,
  has_prefix, codes, Option-cases,
}
use libblockdev.Lvm.Table.{Table, parse_lvm_vars, comma_list}
use libblockdev.Lvm.Data.{get_lv_data_from_table, plain_lv, with_devices}
use libblockdev.Lvm.Ops.Queries.{read_line, read_all}
use libblockdev.Lvm.Ops.{optional}
use libblockdev.Lvm.Ops.Lists.{merge_all}
use libblockdev.Lvm.Ops.Lists.Names.{IsDistinct}
use libblockdev.Lvm.Ops.Lists.Segments.{OneSegment, segments_of, merge_all-grouped}

with_devices-OneSegment :
    (atoi : Bytes → ℕ) (table : Table) (values : List Bytes)
    → OneSegment (with_devices atoi table (plain_lv table) values)
unfolding with_devices plain_lv
with_devices-OneSegment atoi table [] = omega arith
with_devices-OneSegment atoi table (v ∷ values) =
    elim (Bool-cases (has_prefix v (codes "[unknown]"))) [
      | inl missing ↦ rw missing (omega arith)
      | inr known ↦ elim (Bool-cases (has_prefix v (codes "/dev/"))) [
        | inl device ↦ rw (known, device) (omega arith)
        | inr volumes ↦ rw (known, volumes) (omega arith)
      ]
    ]

read_line-OneSegment :
    (atoi : Bytes → ℕ) (table : Table) → OneSegment (get_lv_data_from_table atoi table)
unfolding get_lv_data_from_table
read_line-OneSegment atoi table = elim (Option-cases (comma_list (codes "LVM2_DEVICES") table)) [
  | inl no_devices ↦ rw (no_devices, get_lv_data_from_table) (unfold plain_lv in omega arith)
  | inr (values, devices) ↦
      rw (devices, get_lv_data_from_table) (with_devices-OneSegment atoi table values)
]

read_one :
    (atoi : Bytes → ℕ) (columns : ℕ) (t : Table × ℕ)
    → All OneSegment (optional (read_line columns (get_lv_data_from_table atoi) t))
read_one atoi columns (table, num_items) = elim (Bool-cases (num_items == columns)) [
  | inl read ↦ rw read (read_line-OneSegment atoi table, tt)
  | inr other ↦ rw other tt
]

read_all-OneSegment :
    (atoi : Bytes → ℕ) (columns : ℕ) (lines : List Bytes)
    → All OneSegment (read_all columns (get_lv_data_from_table atoi) lines)
unfolding read_all
read_all-OneSegment atoi columns [] = tt
read_all-OneSegment atoi columns (line ∷ lines) =
    All-append OneSegment
      (optional (read_line columns (get_lv_data_from_table atoi) (parse_lvm_vars line)))
      (read_all columns (get_lv_data_from_table atoi) lines)
      (read_one atoi columns (parse_lvm_vars line)) (read_all-OneSegment atoi columns lines)

-- The tree that is made of any lines of `lvs`: no two logical volumes in it have the same name, and the
-- segments of the one with a name are those of all lines with this name, in the order of the lines.
pub lvs_tree_grouped :
    (atoi : Bytes → ℕ) (columns : ℕ) (lines : List Bytes) (name : Option Bytes)
    → IsDistinct (merge_all [] (read_all columns (get_lv_data_from_table atoi) lines))
      × (segments_of name (merge_all [] (read_all columns (get_lv_data_from_table atoi) lines))
          ≡ segments_of name (read_all columns (get_lv_data_from_table atoi) lines))
unfolding segments_of
lvs_tree_grouped atoi columns lines name =
    merge_all-grouped name [] (read_all columns (get_lv_data_from_table atoi) lines) tt
      (read_all-OneSegment atoi columns lines)
