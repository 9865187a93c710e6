-- ===== src/Zfs/Ops/Datasets.antt =====
-- src/plugins/zfs.c: the operations on datasets.
use libblockdev.Base.{
  ◌+◌, Option, none, some, List, [], ◌∷◌, ◌++◌, Bool, true, false, ◌||◌, Bytes, is_empty, any,
  if◌then◌else◌, ◌==◌, length, zfs_fail, Result, ok, fail, codes,
}
use libblockdev.Utils.Args.{ExtraArg}
use libblockdev.Zfs.Names.{starts_with_dash}
use libblockdev.Zfs.Caps.{version_at_least}
use libblockdev.Zfs.Pool.{check_name, count_extra_args, append_extra_args}
use libblockdev.Zfs.Reports.{
  DatasetInfo, PropertyInfo, lines_of, parse_all, parse_first, parse_dataset_info_line,
  parse_property_line,
}
use libblockdev.Zfs.Ops.{
  asking, Env, M, ◌>>=◌, ◌>>◌, pure, checked, need_tools, report, capture, slots_for, flag,
  check_given, zfs_mask,
}
use libblockdev.Zfs.Ops.Pools.{parsed, check_value}

unfoldable pub dataset_create : Env → Option Bytes → Option (List ExtraArg) → M (Unit {0})
unfolding check_name count_extra_args append_extra_args
dataset_create env name extra = do
  n ← checked (check_name name (codes "Dataset name"))
  need_tools env zfs_mask
  report env (record {
    allocated = 4 + count_extra_args extra + 1;
    args = append_extra_args (codes "zfs" ∷ codes "create" ∷ []) extra ++ (codes "--" ∷ n ∷ []);
  })

unfoldable pub dataset_destroy : Env → Option Bytes → Bool → Bool → M (Unit {0})
unfolding check_name
dataset_destroy env name recursive force = do
  n ← checked (check_name name (codes "Dataset name"))
  need_tools env zfs_mask
  report env (
      slots_for 7 (
        codes "zfs"
        ∷ codes "destroy"
        ∷ (flag recursive (codes "-r") ++ (flag force (codes "-f") ++ (codes "--" ∷ n ∷ [])))))

-- `zfs_version_at_least (0, 8, 0, NULL)`: the error is dropped.
unfoldable pub quiet_at_least_080 : Env → M Bool
unfolding version_at_least asking
quiet_at_least_080 env w =
    let (v, newer) = asking env (λ versions s. version_at_least versions 0 8 0 s) w in
    (record v { plugin = record (v.plugin) { error = w.plugin.error } }, some newer)

abbrev pub dataset_fields : Bool → Bytes
dataset_fields true =
    codes "name,type,mountpoint,origin,used,avail,refer,compress,encryption,keystatus,mounted"
dataset_fields false = codes "name,type,mountpoint,origin,used,avail,refer,compress,mounted"

-- `if (name) { argv[next_arg++] = "--"; argv[next_arg++] = name; }`
abbrev pub behind_dashes : Option Bytes → List Bytes
behind_dashes none = []
behind_dashes (some n) = codes "--" ∷ n ∷ []

unfoldable pub dataset_list : Env → Option Bytes → Bool → M (List DatasetInfo)
unfolding check_given quiet_at_least_080 parse_all parse_dataset_info_line lines_of
dataset_list env pool_or_parent recursive = do
  checked (check_given pool_or_parent (codes "Pool or parent dataset"))
  need_tools env zfs_mask
  has_encryption ← quiet_at_least_080 env
  output ← capture env (record {
    allocated =
        8 + length (flag recursive (codes "-r")) + length (behind_dashes pool_or_parent) + 1;
    args =
        codes "zfs"
        ∷ codes "list"
        ∷ codes "-H"
        ∷ codes "-p"
        ∷ codes "-t"
        ∷ codes "all"
        ∷ (flag recursive (codes "-r")
            ++ (codes "-o" ∷ dataset_fields has_encryption ∷ behind_dashes pool_or_parent));
  })
  pure (parse_all (parse_dataset_info_line has_encryption) (lines_of output))

unfoldable pub dataset_get_info : Env → Option Bytes → M DatasetInfo
unfolding check_name quiet_at_least_080 parse_first parse_dataset_info_line lines_of
dataset_get_info env name = do
  n ← checked (check_name name (codes "Dataset name"))
  need_tools env zfs_mask
  has_encryption ← quiet_at_least_080 env
  output ← capture env (
      slots_for 12 (
        codes "zfs"
        ∷ codes "list"
        ∷ codes "-H"
        ∷ codes "-p"
        ∷ codes "-t"
        ∷ codes "all"
        ∷ codes "-o"
        ∷ dataset_fields has_encryption
        ∷ codes "--"
        ∷ n
        ∷ []))
  checked (
      parsed (codes "Failed to parse dataset info for '" ++ n ++ codes "'")
        (parse_first (parse_dataset_info_line has_encryption) (lines_of output)))

unfoldable pub dataset_rename : Env → Option Bytes → Option Bytes → Bool → Bool → M (Unit {0})
unfolding check_name
dataset_rename env name new_name create_parent force = do
  n ← checked (check_name name (codes "Dataset name"))
  new ← checked (check_name new_name (codes "New dataset name"))
  need_tools env zfs_mask
  report env (
      slots_for 8 (
        codes "zfs"
        ∷ codes "rename"
        ∷ (flag create_parent (codes "-p")
            ++ (flag force (codes "-f") ++ (codes "--" ∷ n ∷ new ∷ [])))))

unfoldable pub check_mountpoint : Option Bytes → Result (Unit {0})
check_mountpoint none = ok tt
check_mountpoint (some m) =
    if is_empty m || starts_with_dash m
    then fail zfs_fail (codes "Mountpoint cannot be empty or start with '-'")
    else if any (λ c. c == b',') m
    then fail zfs_fail (codes "Mountpoint path cannot contain commas: " ++ m)
    else ok tt

abbrev pub mount_options : Option Bytes → List Bytes
mount_options none = []
mount_options (some m) = codes "-o" ∷ (codes "mountpoint=" ++ m) ∷ []

unfoldable pub dataset_mount :
    Env → Option Bytes → Option Bytes → Option (List ExtraArg) → M (Unit {0})
unfolding check_name check_mountpoint count_extra_args append_extra_args
dataset_mount env name mountpoint extra = do
  n ← checked (check_name name (codes "Dataset name"))
  checked (check_mountpoint mountpoint)
  need_tools env zfs_mask
  report env (record {
    allocated = 4 + length (mount_options mountpoint) + count_extra_args extra + 1;
    args =
        append_extra_args (codes "zfs" ∷ codes "mount" ∷ mount_options mountpoint) extra
        ++ (codes "--" ∷ n ∷ []);
  })

unfoldable pub dataset_unmount : Env → Option Bytes → Bool → M (Unit {0})
unfolding check_name
dataset_unmount env name force = do
  n ← checked (check_name name (codes "Dataset name"))
  need_tools env zfs_mask
  report env (
      slots_for 6
        (codes "zfs" ∷ codes "unmount" ∷ (flag force (codes "-f") ++ (codes "--" ∷ n ∷ []))))

unfoldable pub dataset_get_property : Env → Option Bytes → Option Bytes → M PropertyInfo
unfolding check_name parse_first parse_property_line lines_of
dataset_get_property env name property = do
  n ← checked (check_name name (codes "Dataset name"))
  p ← checked (check_name property (codes "Property name"))
  need_tools env zfs_mask
  output ←
      capture env (
        slots_for 8 (codes "zfs" ∷ codes "get" ∷ codes "-H" ∷ codes "-p" ∷ p ∷ codes "--" ∷ n ∷ []))
  checked (
      parsed (codes "Failed to parse property '" ++ p ++ codes "' for dataset '" ++ n ++ codes "'")
        (parse_first parse_property_line (lines_of output)))

unfoldable pub dataset_set_property :
    Env → Option Bytes → Option Bytes → Option Bytes → M (Unit {0})
unfolding check_name check_value
dataset_set_property env name property value = do
  n ← checked (check_name name (codes "Dataset name"))
  p ← checked (check_name property (codes "Property name"))
  v ← checked (check_value value)
  need_tools env zfs_mask
  report env (slots_for 5 (codes "zfs" ∷ codes "set" ∷ (p ++ (codes "=" ++ v)) ∷ n ∷ []))

unfoldable pub dataset_get_properties : Env → Option Bytes → M (List PropertyInfo)
unfolding check_name parse_all parse_property_line lines_of
dataset_get_properties env name = do
  n ← checked (check_name name (codes "Dataset name"))
  need_tools env zfs_mask
  output ← capture env (
      slots_for 8
        (codes "zfs" ∷ codes "get" ∷ codes "-H" ∷ codes "-p" ∷ codes "all" ∷ codes "--" ∷ n ∷ []))
  pure (parse_all parse_property_line (lines_of output))

unfoldable pub dataset_inherit_property : Env → Option Bytes → Option Bytes → M (Unit {0})
unfolding check_name
dataset_inherit_property env name property = do
  n ← checked (check_name name (codes "Dataset name"))
  p ← checked (check_name property (codes "Property name"))
  need_tools env zfs_mask
  report env (slots_for 6 (codes "zfs" ∷ codes "inherit" ∷ codes "--" ∷ p ∷ n ∷ []))
