-- ===== src/Zfs/Ops/Zvols.antt =====
-- src/plugins/zfs.c: the operations on volumes. Sizes are numbers of 64 bits.
use libblockdev.Base.{ℕ, ◌+◌, Option, List, [], ◌∷◌, ◌++◌, Bool, Bytes, length, decimal, codes}
use libblockdev.Utils.Args.{ExtraArg}
use libblockdev.Zfs.Pool.{check_name, count_extra_args, append_extra_args}
use libblockdev.Zfs.Ops.{
  Env, M, ◌>>=◌, ◌>>◌, checked, need_tools, report, slots_for, flag, zfs_mask,
}

unfoldable pub zvol_create : Env → Option Bytes → ℕ → Bool → Option (List ExtraArg) → M (Unit {0})
unfolding check_name count_extra_args append_extra_args decimal
zvol_create env name size sparse extra = do
  n ← checked (check_name name (codes "Zvol name"))
  need_tools env zfs_mask
  report env (record {
    allocated = 6 + length (flag sparse (codes "-s")) + count_extra_args extra + 1;
    args =
        append_extra_args
          (codes "zfs" ∷ codes "create" ∷ codes "-V" ∷ decimal size ∷ flag sparse (codes "-s"))
          extra
        ++ (codes "--" ∷ n ∷ []);
  })

unfoldable pub zvol_destroy : Env → Option Bytes → Bool → Bool → M (Unit {0})
unfolding check_name
zvol_destroy env name recursive force = do
  n ← checked (check_name name (codes "Zvol name"))
  need_tools env zfs_mask
  report env (
      slots_for 7 (
        codes "zfs"
        ∷ codes "destroy"
        ∷ (flag recursive (codes "-r") ++ (flag force (codes "-f") ++ (codes "--" ∷ n ∷ [])))))

unfoldable pub zvol_resize : Env → Option Bytes → ℕ → M (Unit {0})
unfolding check_name decimal
zvol_resize env name new_size = do
  n ← checked (check_name name (codes "Zvol name"))
  need_tools env zfs_mask
  report env
      (slots_for 5 (codes "zfs" ∷ codes "set" ∷ (codes "volsize=" ++ decimal new_size) ∷ n ∷ []))
