-- ===== src/Lvm/Ops/Queries.antt =====
-- src/plugins/lvm/lvm.c: the operations that read what `lvm` prints about volumes, groups and pools.
use libblockdev.Base.{
  ℕ, Option, none, some, List, [], ◌∷◌, ◌++◌, Bool, false, Bytes, if◌then◌else◌, ◌==◌, codes,
  Result, ok, GError, fail, lvm_parse,
}
use libblockdev.Utils.Commands.{Argv}
use libblockdev.Utils.Version.{is_noout}
use libblockdev.Lvm.Table.{Table, parse_lvm_vars, lines}
use libblockdev.Lvm.Data.{
  PvData, VgData, LvData, get_pv_data_from_table, get_vg_data_from_table, get_lv_data_from_table,
  merge_lv_data,
}
use libblockdev.Lvm.Ops.{
  Env, World, M, ◌>>=◌, checked, optional, slots_for, spec, call_lvm_and_capture_output,
}

-- A line with as many variables as there are columns is read, any other is passed over.
abbrev pub read_line : {A : Type 0} → ℕ → (Table → A) → Table × ℕ → Option A
read_line columns read (table, num_items) = if num_items == columns then some (read table) else none

unfoldable pub read_all : {A : Type 0} → ℕ → (Table → A) → List Bytes → List A
unfolding parse_lvm_vars
read_all columns read [] = []
read_all columns read (line ∷ rest) =
    optional (read_line columns read (parse_lvm_vars line)) ++ read_all columns read rest

unfoldable pub read_first : {A : Type 0} → ℕ → (Table → A) → List Bytes → Option A
unfolding parse_lvm_vars
read_first columns read [] = none
read_first columns read (line ∷ rest) = elim (read_line columns read (parse_lvm_vars line)) [
  | some a ↦ some a
  | none ↦ read_first columns read rest
]

-- `g_set_error_literal (error, BD_LVM_ERROR, BD_LVM_ERROR_PARSE, message)` where nothing was read.
abbrev pub parsed : {A : Type 0} → Option A → Bytes → Result A
parsed none message = fail lvm_parse message
parsed (some a) message = ok a

abbrev pub parsed_all : {A : Type 0} → List A → Bytes → Result (List A)
parsed_all [] message = fail lvm_parse message
parsed_all (a ∷ rest) message = ok (a ∷ rest)

abbrev pub found_nothing : Option GError → Bool
found_nothing none = false
found_nothing (some e) = is_noout e.code

-- A program without output has found nothing: its error is cleared.
unfoldable pub forgive : World × Option Bytes → World × Option (Option Bytes)
forgive (w, some output) = (w, some (some output))
forgive (w, none) =
    if found_nothing w.error then (record w { error = none }, some none) else (w, none)

unfoldable pub capture_if_any : Env → Argv → M (Option Bytes)
unfolding forgive call_lvm_and_capture_output
capture_if_any env args w = forgive (call_lvm_and_capture_output env args none w)

abbrev pub all_in : {A : Type 0} → (List Bytes → List A) → Bytes → Option Bytes → Result (List A)
all_in read message none = ok []
all_in read message (some output) = parsed_all (read (lines output)) message

abbrev pub pv_columns : Bytes
pv_columns =
    codes "pv_name,pv_uuid,pv_free,pv_size,pe_start,vg_name,vg_uuid,vg_size,"
    ++ codes "vg_free,vg_extent_size,vg_extent_count,vg_free_count,pv_count,pv_tags,pv_missing"

abbrev pub pv_args : List Bytes → List Bytes
pv_args names =
    codes "pvs"
    ∷ codes "--unit=b"
    ∷ codes "--nosuffix"
    ∷ codes "--nameprefixes"
    ∷ codes "--unquoted"
    ∷ codes "--noheadings"
    ∷ codes "-o"
    ∷ pv_columns
    ∷ names

-- `g_clear_error (error)` where a PV was read clears nothing: no error is set there.
unfoldable pub pvinfo : Env → Bytes → M PvData
unfolding call_lvm_and_capture_output read_first get_pv_data_from_table lines
pvinfo env device = do
  output ← call_lvm_and_capture_output env (slots_for 10 (pv_args (device ∷ []))) none
  checked (
      parsed (read_first 15 get_pv_data_from_table (lines output))
        (codes "Failed to parse information about the PV"))

unfoldable pub pvs : Env → M (List PvData)
unfolding capture_if_any read_all get_pv_data_from_table lines
pvs env = do
  output ← capture_if_any env (slots_for 9 (pv_args []))
  checked (
      all_in (read_all 15 get_pv_data_from_table) (codes "Failed to parse information about PVs")
        output)

abbrev pub short_options : List Bytes → List Bytes
short_options rest =
    codes "--noheadings"
    ∷ codes "--nosuffix"
    ∷ codes "--nameprefixes"
    ∷ codes "--unquoted"
    ∷ codes "--units=b"
    ∷ rest

abbrev pub vg_args : List Bytes → List Bytes
vg_args names =
    codes "vgs"
    ∷ short_options (
        codes "-o"
        ∷ (codes "name,uuid,size,free,extent_size,extent_count,"
            ++ codes "free_count,pv_count,vg_exported,vg_tags")
        ∷ names)

unfoldable pub vginfo : Env → Bytes → M VgData
unfolding call_lvm_and_capture_output read_first get_vg_data_from_table lines
vginfo env vg_name = do
  output ← call_lvm_and_capture_output env (slots_for 10 (vg_args (vg_name ∷ []))) none
  checked (
      parsed (read_first 10 get_vg_data_from_table (lines output))
        (codes "Failed to parse information about the VG"))

unfoldable pub vgs : Env → M (List VgData)
unfolding capture_if_any read_all get_vg_data_from_table lines
vgs env = do
  output ← capture_if_any env (slots_for 9 (vg_args []))
  checked (
      all_in (read_all 10 get_vg_data_from_table) (codes "Failed to parse information about VGs")
        output)

abbrev pub lv_columns : Bytes
lv_columns =
    codes "vg_name,lv_name,lv_uuid,lv_size,lv_attr,segtype,origin,pool_lv,data_lv,metadata_lv,"
    ++ codes "role,move_pv,data_percent,metadata_percent,copy_percent,lv_tags"

abbrev pub lv_args : Bytes → List Bytes → List Bytes
lv_args columns names = codes "lvs" ∷ short_options (codes "-a" ∷ codes "-o" ∷ columns ∷ names)

abbrev pub tree_columns : Bytes
tree_columns = lv_columns ++ codes ",devices,metadata_devices,seg_size_pe"

unfoldable pub lvinfo : Env → Bytes → Bytes → M LvData
unfolding call_lvm_and_capture_output read_first get_lv_data_from_table lines
lvinfo env vg_name lv_name = do
  output ←
      call_lvm_and_capture_output env
        (slots_for 11 (lv_args lv_columns (spec vg_name lv_name ∷ []))) none
  checked (
      parsed (read_first 16 (get_lv_data_from_table env.atoi) (lines output))
        (codes "Failed to parse information about the LV"))

-- The lines of one LV, all merged into the first.
unfoldable pub merge_lines : List LvData → Option LvData → Option LvData
unfolding merge_lv_data
merge_lines [] result = result
merge_lines (lv ∷ lvs) none = merge_lines lvs (some lv)
merge_lines (lv ∷ lvs) (some result) = merge_lines lvs (some (merge_lv_data result lv))

unfoldable pub lvinfo_tree : Env → Bytes → Bytes → M LvData
unfolding call_lvm_and_capture_output read_all get_lv_data_from_table lines merge_lines
lvinfo_tree env vg_name lv_name = do
  output ←
      call_lvm_and_capture_output env
        (slots_for 11 (lv_args tree_columns (spec vg_name lv_name ∷ []))) none
  checked (
      parsed (merge_lines (read_all 19 (get_lv_data_from_table env.atoi) (lines output)) none)
        (codes "Failed to parse information about the LV"))
