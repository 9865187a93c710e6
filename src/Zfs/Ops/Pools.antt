-- ===== src/Zfs/Ops/Pools.antt =====
-- src/plugins/zfs.c: the operations on whole pools.
use libblockdev.Base.{
  Option, none, some, List, [], ◌∷◌, ◌++◌, Bool, Bytes, is_empty, if◌then◌else◌, zfs_fail,
  zfs_parse, Result, ok, fail, codes,
}
use libblockdev.Utils.Args.{ExtraArg}
use libblockdev.Zfs.Version.{probe_version}
use libblockdev.Zfs.Pool.{check_name, pool_create_argv, pool_import_argv}
use libblockdev.Zfs.Reports.{
  PoolInfo, PropertyInfo, lines_of, parse_all, parse_first, parse_pool_info_line,
  parse_property_line,
}
use libblockdev.Zfs.Ops.{
  asking, Env, M, ◌>>=◌, ◌>>◌, pure, checked, need_tools, need_cap, report, capture, slots_for,
  flag, both_masks, zpool_mask, zfs_mask,
}

-- The checks come first, then the tools, then the array that is run.
unfoldable pub pool_create :
    Env → Option Bytes → Option (List Bytes) → Option Bytes → Option (List ExtraArg) → M (Unit {0})
unfolding pool_create_argv
pool_create env name vdevs raid_level extra = do
  a ← checked (pool_create_argv (ok tt) name vdevs raid_level extra)
  need_tools env both_masks
  report env a

unfoldable pub pool_destroy : Env → Option Bytes → Bool → M (Unit {0})
unfolding check_name
pool_destroy env name force = do
  n ← checked (check_name name (codes "Pool name"))
  need_tools env both_masks
  report env (
      slots_for 6
        (codes "zpool" ∷ codes "destroy" ∷ (flag force (codes "-f") ++ (codes "--" ∷ n ∷ []))))

unfoldable pub pool_export : Env → Option Bytes → Bool → M (Unit {0})
unfolding check_name
pool_export env name force = do
  n ← checked (check_name name (codes "Pool name"))
  need_tools env both_masks
  report env (
      slots_for 6
        (codes "zpool" ∷ codes "export" ∷ (flag force (codes "-f") ++ (codes "--" ∷ n ∷ []))))

unfoldable pub pool_import :
    Env
    → Option Bytes
    → Option Bytes
    → Option (List Bytes)
    → Bool
    → Option (List ExtraArg)
    → M (Unit {0})
unfolding pool_import_argv
pool_import env name_or_guid new_name search_dirs force extra = do
  a ← checked (pool_import_argv (ok tt) name_or_guid new_name search_dirs force extra)
  need_tools env both_masks
  report env a

abbrev pub pool_fields : Bytes
pool_fields = codes "name,guid,health,size,alloc,free,frag,dedupratio,altroot,ashift,readonly"

unfoldable pub pool_list : Env → M (List PoolInfo)
unfolding parse_all parse_pool_info_line lines_of
pool_list env = do
  need_tools env both_masks
  output ← capture env (
      slots_for 7
        (codes "zpool" ∷ codes "list" ∷ codes "-H" ∷ codes "-p" ∷ codes "-o" ∷ pool_fields ∷ []))
  pure (parse_all parse_pool_info_line (lines_of output))

-- `if (!info) { g_set_error (error, …, BD_ZFS_ERROR_PARSE, message); return NULL; }`
abbrev pub parsed : {A : Type 0} → Bytes → Option A → Result A
parsed message none = fail zfs_parse message
parsed message (some a) = ok a

unfoldable pub pool_get_info : Env → Option Bytes → M PoolInfo
unfolding check_name parse_first parse_pool_info_line lines_of
pool_get_info env name = do
  n ← checked (check_name name (codes "Pool name"))
  need_tools env both_masks
  output ← capture env (
      slots_for 9 (
        codes "zpool"
        ∷ codes "list"
        ∷ codes "-H"
        ∷ codes "-p"
        ∷ codes "-o"
        ∷ pool_fields
        ∷ codes "--"
        ∷ n
        ∷ []))
  checked (
      parsed (codes "Failed to parse pool info for '" ++ n ++ codes "'")
        (parse_first parse_pool_info_line (lines_of output)))

unfoldable pub pool_scrub_start : Env → Option Bytes → M (Unit {0})
unfolding check_name
pool_scrub_start env name = do
  n ← checked (check_name name (codes "Pool name"))
  need_tools env both_masks
  report env (slots_for 5 (codes "zpool" ∷ codes "scrub" ∷ codes "--" ∷ n ∷ []))

unfoldable pub pool_scrub_stop : Env → Option Bytes → M (Unit {0})
unfolding check_name
pool_scrub_stop env name = do
  n ← checked (check_name name (codes "Pool name"))
  need_tools env both_masks
  report env (slots_for 6 (codes "zpool" ∷ codes "scrub" ∷ codes "-s" ∷ codes "--" ∷ n ∷ []))

unfoldable pub pool_scrub_pause : Env → Option Bytes → M (Unit {0})
unfolding check_name
pool_scrub_pause env name = do
  n ← checked (check_name name (codes "Pool name"))
  need_tools env both_masks
  need_cap env (codes "Scrub pause") (λ c. c.scrub_pause_supported)
  report env (slots_for 6 (codes "zpool" ∷ codes "scrub" ∷ codes "-p" ∷ codes "--" ∷ n ∷ []))

unfoldable pub pool_get_property : Env → Option Bytes → Option Bytes → M PropertyInfo
unfolding check_name parse_first parse_property_line lines_of
pool_get_property env name property = do
  n ← checked (check_name name (codes "Pool name"))
  p ← checked (check_name property (codes "Property name"))
  need_tools env both_masks
  output ← capture env (
      slots_for 8 (codes "zpool" ∷ codes "get" ∷ codes "-H" ∷ codes "-p" ∷ p ∷ codes "--" ∷ n ∷ []))
  checked (
      parsed (codes "Failed to parse property '" ++ p ++ codes "' for pool '" ++ n ++ codes "'")
        (parse_first parse_property_line (lines_of output)))

-- `value == NULL || *value == '\0'`
unfoldable pub check_value : Option Bytes → Result Bytes
check_value none = fail zfs_fail (codes "Property value cannot be NULL or empty")
check_value (some v) =
    if is_empty v then fail zfs_fail (codes "Property value cannot be NULL or empty") else ok v

unfoldable pub pool_set_property : Env → Option Bytes → Option Bytes → Option Bytes → M (Unit {0})
unfolding check_name check_value
pool_set_property env name property value = do
  n ← checked (check_name name (codes "Pool name"))
  p ← checked (check_name property (codes "Property name"))
  v ← checked (check_value value)
  need_tools env both_masks
  report env (slots_for 5 (codes "zpool" ∷ codes "set" ∷ (p ++ (codes "=" ++ v)) ∷ n ∷ []))

unfoldable pub pool_get_properties : Env → Option Bytes → M (List PropertyInfo)
unfolding check_name parse_all parse_property_line lines_of
pool_get_properties env name = do
  n ← checked (check_name name (codes "Pool name"))
  need_tools env both_masks
  output ← capture env (
      slots_for 8
        (codes "zpool" ∷ codes "get" ∷ codes "-H" ∷ codes "-p" ∷ codes "all" ∷ codes "--" ∷ n ∷ []))
  pure (parse_all parse_property_line (lines_of output))

unfoldable pub pool_upgrade : Env → Option Bytes → M (Unit {0})
unfolding check_name
pool_upgrade env name = do
  n ← checked (check_name name (codes "Pool name"))
  need_tools env zpool_mask
  report env (slots_for 5 (codes "zpool" ∷ codes "upgrade" ∷ codes "--" ∷ n ∷ []))

unfoldable pub pool_history : Env → Option Bytes → M Bytes
unfolding check_name
pool_history env name = do
  n ← checked (check_name name (codes "Pool name"))
  need_tools env zpool_mask
  capture env (slots_for 5 (codes "zpool" ∷ codes "history" ∷ codes "--" ∷ n ∷ []))

unfoldable pub get_zfs_version : Env → M Bytes
unfolding probe_version asking
get_zfs_version env = do need_tools env zfs_mask; asking env probe_version
