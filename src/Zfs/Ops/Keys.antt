-- ===== src/Zfs/Ops/Keys.antt =====
-- src/plugins/zfs.c: the keys of encrypted datasets.
use libblockdev.Base.{
  ◌+◌, Option, none, some, List, [], ◌∷◌, ◌++◌, ◌||◌, Bytes, any, has_prefix, strstrip,
  if◌then◌else◌, ◌==◌, zfs_fail, Result, ok, fail, codes,
}
use libblockdev.Utils.Args.{ExtraArg}
use libblockdev.Zfs.Names.{starts_with_dash}
use libblockdev.Zfs.Pool.{check_name, count_extra_args, append_extra_args}
use libblockdev.Zfs.Reports.{KeyStatus, key_status_of}
use libblockdev.Zfs.Ops.{
  Env, M, ◌>>=◌, ◌>>◌, pure, checked, need_tools, need_cap, report, capture, with_input, slots_for,
  zfs_mask,
}

-- `key_location != NULL && *key_location == '-'`
unfoldable pub check_key_location : Option Bytes → Result (Unit {0})
check_key_location none = ok tt
check_key_location (some k) =
    if starts_with_dash k then fail zfs_fail (codes "Key location cannot start with '-'") else ok tt

-- The three ways to hand over the key: where it is known, from a file, through the prompt.
unfoldable pub load_key_from : Env → Bytes → Option Bytes → M (Unit {0})
load_key_from env n none =
    report env (slots_for 5 (codes "zfs" ∷ codes "load-key" ∷ codes "--" ∷ n ∷ []))
load_key_from env n (some k) =
    if has_prefix k (codes "file://")
    then report env
        (slots_for 7 (codes "zfs" ∷ codes "load-key" ∷ codes "-L" ∷ k ∷ codes "--" ∷ n ∷ []))
    else with_input env
        (slots_for 7
          (codes "zfs" ∷ codes "load-key" ∷ codes "-L" ∷ codes "prompt" ∷ codes "--" ∷ n ∷ []))
        k

unfoldable pub encryption_load_key : Env → Option Bytes → Option Bytes → M (Unit {0})
unfolding check_name check_key_location load_key_from
encryption_load_key env dataset key_location = do
  n ← checked (check_name dataset (codes "Dataset name"))
  checked (check_key_location key_location)
  need_tools env zfs_mask
  need_cap env (codes "Encryption") (λ c. c.encryption_supported)
  load_key_from env n key_location

unfoldable pub encryption_unload_key : Env → Option Bytes → M (Unit {0})
unfolding check_name
encryption_unload_key env dataset = do
  n ← checked (check_name dataset (codes "Dataset name"))
  need_tools env zfs_mask
  need_cap env (codes "Encryption") (λ c. c.encryption_supported)
  report env (slots_for 5 (codes "zfs" ∷ codes "unload-key" ∷ codes "--" ∷ n ∷ []))

-- `zfs change-key`, the options, the extra arguments, `--` and the name.
abbrev pub change_key_args : List Bytes → Option (List ExtraArg) → Bytes → List Bytes
change_key_args options extra n =
    append_extra_args (codes "zfs" ∷ codes "change-key" ∷ options) extra ++ (codes "--" ∷ n ∷ [])

unfoldable pub change_key_to : Env → Bytes → Option Bytes → Option (List ExtraArg) → M (Unit {0})
unfolding count_extra_args append_extra_args
change_key_to env n none extra =
    report env
      (slots_for (5 + count_extra_args extra + 1) (change_key_args (codes "-i" ∷ []) extra n))
change_key_to env n (some k) extra =
    if has_prefix k (codes "file://") || has_prefix k (codes "pkcs11:")
    then (if any (λ c. c == b',') k
        then checked (fail zfs_fail (codes "Key location URI cannot contain commas: " ++ k))
        else report env (
            slots_for (6 + count_extra_args extra + 1)
              (change_key_args (codes "-o" ∷ (codes "keylocation=" ++ k) ∷ []) extra n)))
    else with_input env
        (slots_for (6 + count_extra_args extra + 1)
          (change_key_args (codes "-o" ∷ codes "keylocation=prompt" ∷ []) extra n))
        k

unfoldable pub encryption_change_key :
    Env → Option Bytes → Option Bytes → Option (List ExtraArg) → M (Unit {0})
unfolding check_name change_key_to
encryption_change_key env dataset new_key_location extra = do
  n ← checked (check_name dataset (codes "Dataset name"))
  need_tools env zfs_mask
  need_cap env (codes "Encryption") (λ c. c.encryption_supported)
  change_key_to env n new_key_location extra

unfoldable pub encryption_key_status : Env → Option Bytes → M KeyStatus
unfolding check_name key_status_of
encryption_key_status env dataset = do
  n ← checked (check_name dataset (codes "Dataset name"))
  need_tools env zfs_mask
  need_cap env (codes "Encryption") (λ c. c.encryption_supported)
  output ← capture env (
      slots_for 10 (
        codes "zfs"
        ∷ codes "get"
        ∷ codes "-H"
        ∷ codes "-p"
        ∷ codes "-o"
        ∷ codes "value"
        ∷ codes "keystatus"
        ∷ codes "--"
        ∷ n
        ∷ []))
  pure (key_status_of (strstrip output))
