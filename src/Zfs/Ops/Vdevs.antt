-- ===== src/Zfs/Ops/Vdevs.antt =====
-- src/plugins/zfs.c: the operations on the vdevs of a pool.
use libblockdev.Base.{◌+◌, Option, List, [], ◌∷◌, ◌++◌, Bool, Bytes, length, codes}
use libblockdev.Utils.Args.{ExtraArg}
use libblockdev.Zfs.Pool.{
  check_name, check_raid_level, check_vdevs, optional, count_extra_args, append_extra_args,
}
use libblockdev.Zfs.Ops.{
  Env, M, ◌>>=◌, ◌>>◌, checked, need_tools, need_cap, report, slots_for, flag, check_given,
  both_masks,
}

unfoldable pub pool_add_vdev :
    Env → Option Bytes → Option (List Bytes) → Option Bytes → Option (List ExtraArg) → M (Unit {0})
unfolding check_name check_raid_level check_vdevs count_extra_args append_extra_args
pool_add_vdev env name vdevs raid_level extra = do
  n ← checked (check_name name (codes "Pool name"))
  checked (check_raid_level raid_level)
  vs ← checked (check_vdevs vdevs)
  need_tools env both_masks
  report env (record {
    allocated = 4 + count_extra_args extra + length vs + length (optional raid_level) + 1;
    args =
        append_extra_args (codes "zpool" ∷ codes "add" ∷ []) extra
        ++ (codes "--" ∷ n ∷ (optional raid_level ++ vs));
  })

unfoldable pub pool_remove_vdev : Env → Option Bytes → Option Bytes → M (Unit {0})
unfolding check_name
pool_remove_vdev env name vdev = do
  n ← checked (check_name name (codes "Pool name"))
  v ← checked (check_name vdev (codes "Vdev"))
  need_tools env both_masks
  report env (slots_for 6 (codes "zpool" ∷ codes "remove" ∷ codes "--" ∷ n ∷ v ∷ []))

unfoldable pub pool_attach : Env → Option Bytes → Option Bytes → Option Bytes → M (Unit {0})
unfolding check_name
pool_attach env name existing_vdev new_vdev = do
  n ← checked (check_name name (codes "Pool name"))
  old ← checked (check_name existing_vdev (codes "Existing vdev"))
  new ← checked (check_name new_vdev (codes "New vdev"))
  need_tools env both_masks
  report env (slots_for 7 (codes "zpool" ∷ codes "attach" ∷ codes "--" ∷ n ∷ old ∷ new ∷ []))

unfoldable pub pool_detach : Env → Option Bytes → Option Bytes → M (Unit {0})
unfolding check_name
pool_detach env name vdev = do
  n ← checked (check_name name (codes "Pool name"))
  v ← checked (check_name vdev (codes "Vdev"))
  need_tools env both_masks
  report env (slots_for 6 (codes "zpool" ∷ codes "detach" ∷ codes "--" ∷ n ∷ v ∷ []))

unfoldable pub pool_replace : Env → Option Bytes → Option Bytes → Option Bytes → Bool → M (Unit {0})
unfolding check_name
pool_replace env name old_vdev new_vdev force = do
  n ← checked (check_name name (codes "Pool name"))
  old ← checked (check_name old_vdev (codes "Old vdev"))
  new ← checked (check_name new_vdev (codes "New vdev"))
  need_tools env both_masks
  report env (
      slots_for 8 (
        codes "zpool"
        ∷ codes "replace"
        ∷ (flag force (codes "-f") ++ (codes "--" ∷ n ∷ old ∷ new ∷ []))))

unfoldable pub pool_online : Env → Option Bytes → Option Bytes → Bool → M (Unit {0})
unfolding check_name
pool_online env name vdev expand = do
  n ← checked (check_name name (codes "Pool name"))
  v ← checked (check_name vdev (codes "Vdev"))
  need_tools env both_masks
  report env (
      slots_for 7
        (codes "zpool" ∷ codes "online" ∷ (flag expand (codes "-e") ++ (codes "--" ∷ n ∷ v ∷ []))))

unfoldable pub pool_offline : Env → Option Bytes → Option Bytes → Bool → M (Unit {0})
unfolding check_name
pool_offline env name vdev temporary = do
  n ← checked (check_name name (codes "Pool name"))
  v ← checked (check_name vdev (codes "Vdev"))
  need_tools env both_masks
  report env (
      slots_for 7 (
        codes "zpool"
        ∷ codes "offline"
        ∷ (flag temporary (codes "-t") ++ (codes "--" ∷ n ∷ v ∷ []))))

unfoldable pub pool_trim_start : Env → Option Bytes → Option Bytes → M (Unit {0})
unfolding check_name check_given
pool_trim_start env name vdev = do
  n ← checked (check_name name (codes "Pool name"))
  checked (check_given vdev (codes "Vdev"))
  need_tools env both_masks
  need_cap env (codes "TRIM") (λ c. c.trim_supported)
  report env (slots_for 6 (codes "zpool" ∷ codes "trim" ∷ codes "--" ∷ n ∷ optional vdev))

unfoldable pub pool_trim_stop : Env → Option Bytes → Option Bytes → M (Unit {0})
unfolding check_name check_given
pool_trim_stop env name vdev = do
  n ← checked (check_name name (codes "Pool name"))
  checked (check_given vdev (codes "Vdev"))
  need_tools env both_masks
  need_cap env (codes "TRIM") (λ c. c.trim_supported)
  report env
      (slots_for 7 (codes "zpool" ∷ codes "trim" ∷ codes "-s" ∷ codes "--" ∷ n ∷ optional vdev))

unfoldable pub pool_clear : Env → Option Bytes → Option Bytes → M (Unit {0})
unfolding check_name check_given
pool_clear env name vdev = do
  n ← checked (check_name name (codes "Pool name"))
  checked (check_given vdev (codes "Vdev"))
  need_tools env both_masks
  report env (slots_for 6 (codes "zpool" ∷ codes "clear" ∷ codes "--" ∷ n ∷ optional vdev))
