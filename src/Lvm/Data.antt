-- ===== src/Lvm/Data.antt =====
-- src/plugins/lvm/lvm.c and src/plugins/lvm/lvm.h: physical volumes, volume groups, logical volumes and VDO
-- pools, as they are read from a table of variables.
use mathlib.Core.Option
use libblockdev.Base.{
  ℕ, Option, none, some, List, [], ◌∷◌, ◌++◌, Bool, not, ◌&&◌, ◌||◌, Bytes, bytes_eq, is_empty,
  has_prefix, strsplit_set, strstrip, map, any, codes, if◌then◌else◌, ◌==◌,
}
use libblockdev.Lvm.Table.{Table, lookup, number, comma_list, is_text}

pub record PvData : Type 0 where
  pub pv_name : Option Bytes
  pub pv_uuid : Option Bytes
  pub pv_free : ℕ
  pub pv_size : ℕ
  pub pe_start : ℕ
  pub vg_name : Option Bytes
  pub vg_uuid : Option Bytes
  pub vg_size : ℕ
  pub vg_free : ℕ
  pub vg_extent_size : ℕ
  pub vg_extent_count : ℕ
  pub vg_free_count : ℕ
  pub vg_pv_count : ℕ
  pub pv_tags : Option (List Bytes)
  pub missing : Bool

unfoldable pub get_pv_data_from_table : Table → PvData
unfolding lookup number comma_list is_text
get_pv_data_from_table table = record {
  pv_name = lookup (codes "LVM2_PV_NAME") table;
  pv_uuid = lookup (codes "LVM2_PV_UUID") table;
  pv_free = number (codes "LVM2_PV_FREE") table;
  pv_size = number (codes "LVM2_PV_SIZE") table;
  pe_start = number (codes "LVM2_PE_START") table;
  vg_name = lookup (codes "LVM2_VG_NAME") table;
  vg_uuid = lookup (codes "LVM2_VG_UUID") table;
  vg_size = number (codes "LVM2_VG_SIZE") table;
  vg_free = number (codes "LVM2_VG_FREE") table;
  vg_extent_size = number (codes "LVM2_VG_EXTENT_SIZE") table;
  vg_extent_count = number (codes "LVM2_VG_EXTENT_COUNT") table;
  vg_free_count = number (codes "LVM2_VG_FREE_COUNT") table;
  vg_pv_count = number (codes "LVM2_PV_COUNT") table;
  pv_tags = comma_list (codes "LVM2_PV_TAGS") table;
  missing = is_text (codes "LVM2_PV_MISSING") (codes "missing") table;
}

pub record VgData : Type 0 where
  pub name : Option Bytes
  pub uuid : Option Bytes
  pub size : ℕ
  pub free : ℕ
  pub extent_size : ℕ
  pub extent_count : ℕ
  pub free_count : ℕ
  pub pv_count : ℕ
  pub exported : Bool
  pub vg_tags : Option (List Bytes)

unfoldable pub get_vg_data_from_table : Table → VgData
unfolding lookup number comma_list is_text
get_vg_data_from_table table = record {
  name = lookup (codes "LVM2_VG_NAME") table;
  uuid = lookup (codes "LVM2_VG_UUID") table;
  size = number (codes "LVM2_VG_SIZE") table;
  free = number (codes "LVM2_VG_FREE") table;
  extent_size = number (codes "LVM2_VG_EXTENT_SIZE") table;
  extent_count = number (codes "LVM2_VG_EXTENT_COUNT") table;
  free_count = number (codes "LVM2_VG_FREE_COUNT") table;
  pv_count = number (codes "LVM2_PV_COUNT") table;
  exported = is_text (codes "LVM2_VG_EXPORTED") (codes "exported") table;
  vg_tags = comma_list (codes "LVM2_VG_TAGS") table;
}

-- `strrchr (s, c)`: what is before and behind the last place.
unfoldable pub split_last : ℕ → Bytes → Option (Bytes × Bytes)
split_last c [] = none
split_last c (d ∷ s) = elim (split_last c s) [
  | some (before, behind) ↦ some (d ∷ before, behind)
  | none ↦ if d == c then some ([], s) else none
]

-- `gchar *paren = strrchr (value, '('); if (paren) *paren = '\0';`
unfoldable pub cut_paren : Bytes → Bytes
unfolding split_last
cut_paren value = elim (split_last b'(' value) [ none ↦ value | some (before, behind) ↦ before ]

-- NULL is none of the values.
unfoldable pub prepare_sublvs : List Bytes → Option Bytes → List Bytes
unfolding cut_paren
prepare_sublvs values none = map cut_paren values
prepare_sublvs values (some extra) =
    if not (is_empty extra) && not (any (bytes_eq extra) (map cut_paren values))
    then map cut_paren values ++ (extra ∷ [])
    else map cut_paren values

pub record SegData : Type 0 where
  pub size_pe : ℕ
  pub pv_start_pe : ℕ
  pub pvdev : Bytes

pub record LvData : Type 0 where
  pub lv_name : Option Bytes
  pub vg_name : Option Bytes
  pub uuid : Option Bytes
  pub size : ℕ
  pub attr : Option Bytes
  pub segtype : Option Bytes
  pub origin : Option Bytes
  pub pool_lv : Option Bytes
  pub data_lv : Option Bytes
  pub metadata_lv : Option Bytes
  pub roles : Option Bytes
  pub move_pv : Option Bytes
  pub data_percent : ℕ
  pub metadata_percent : ℕ
  pub copy_percent : ℕ
  pub lv_tags : Option (List Bytes)
  pub data_lvs : Option (List Bytes)
  pub metadata_lvs : Option (List Bytes)
  pub segs : Option (List SegData)

-- The type `error` is given as `linear`.
abbrev pub segtype_of : Option Bytes → Option Bytes
segtype_of none = none
segtype_of (some t) = some (if bytes_eq t (codes "error") then codes "linear" else t)

-- `g_strstrip (g_strdelimit (name, "[]", ' '))`
abbrev pub unbracketed : Bytes → Bytes
unbracketed name = strstrip (map (λ c. if c == b'[' || c == b']' then b' ' else c) name)

unfoldable pub bare_name : Bytes → Table → Option Bytes
unfolding lookup
bare_name key table = Option.map unbracketed (lookup key table)

unfoldable pub plain_lv : Table → LvData
unfolding lookup number comma_list bare_name
plain_lv table = record {
  lv_name = lookup (codes "LVM2_LV_NAME") table;
  vg_name = lookup (codes "LVM2_VG_NAME") table;
  uuid = lookup (codes "LVM2_LV_UUID") table;
  size = number (codes "LVM2_LV_SIZE") table;
  attr = lookup (codes "LVM2_LV_ATTR") table;
  segtype = segtype_of (lookup (codes "LVM2_SEGTYPE") table);
  origin = lookup (codes "LVM2_ORIGIN") table;
  pool_lv = bare_name (codes "LVM2_POOL_LV") table;
  data_lv = bare_name (codes "LVM2_DATA_LV") table;
  metadata_lv = bare_name (codes "LVM2_METADATA_LV") table;
  roles = lookup (codes "LVM2_LV_ROLE") table;
  move_pv = lookup (codes "LVM2_MOVE_PV") table;
  data_percent = number (codes "LVM2_DATA_PERCENT") table;
  metadata_percent = number (codes "LVM2_METADATA_PERCENT") table;
  copy_percent = number (codes "LVM2_COPY_PERCENT") table;
  lv_tags = comma_list (codes "LVM2_LV_TAGS") table;
  data_lvs = none;
  metadata_lvs = none;
  segs = none;
}

-- A segment on a PV. `atoi` of the C library is an argument.
abbrev pub segment : (Bytes → ℕ) → Bytes → ℕ → SegData
segment atoi value size_pe = elim (split_last b'(' value) [
  | none ↦ record { size_pe = size_pe; pv_start_pe = 0; pvdev = value }
  | some (before, behind) ↦ record { size_pe = size_pe; pv_start_pe = atoi behind; pvdev = before }
]

abbrev or_nothing : Option Bytes → Bytes
or_nothing none = []
or_nothing (some v) = v

-- What the devices of an LV are: nothing, a missing PV, a PV, or other LVs.
unfoldable pub with_devices : (Bytes → ℕ) → Table → LvData → List Bytes → LvData
unfolding split_last prepare_sublvs strsplit_set number lookup
with_devices atoi table lv [] = record lv { segs = some [] }
with_devices atoi table lv (v ∷ values) =
    if has_prefix v (codes "[unknown]")
    then record lv { segs = some [] }
    else if has_prefix v (codes "/dev/")
    then record lv { segs = some (segment atoi v (number (codes "LVM2_SEG_SIZE_PE") table) ∷ []) }
    else record lv {
      data_lvs = some (prepare_sublvs (v ∷ values) lv.data_lv);
      metadata_lvs = some (
          prepare_sublvs
            (strsplit_set (λ c. c == b',')
              (or_nothing (lookup (codes "LVM2_METADATA_DEVICES") table)))
            lv.metadata_lv);
    }

unfoldable pub get_lv_data_from_table : (Bytes → ℕ) → Table → LvData
unfolding plain_lv with_devices comma_list
get_lv_data_from_table atoi table = elim (comma_list (codes "LVM2_DEVICES") table) [
  | none ↦ plain_lv table
  | some values ↦ with_devices atoi table (plain_lv table) values
]

-- The first segment of the second goes to the end of those of the first.
unfoldable pub merge_lv_data : LvData → LvData → LvData
merge_lv_data lv more = elim more.segs [
  | none ↦ lv
  | some [] ↦ lv
  | some (seg ∷ _) ↦ record lv {
    segs = some (elim lv.segs [ none ↦ seg ∷ [] | some segs ↦ segs ++ (seg ∷ []) ]);
  }
]
