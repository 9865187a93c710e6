-- ===== src/Zfs/Pool.antt =====
-- src/plugins/zfs.c: the arrays with which a pool is created and imported. Whether the tools are there
-- (`check_deps`) is an argument; the arrays end in NULL.
pub mod Guards
pub mod Operands
use libblockdev.Base.{
  ℕ, ◌+◌, ◌*◌, Option, none, some, List, [], ◌∷◌, ◌++◌, Bool, true, false, Bytes, if◌then◌else◌,
  length, Result, ok, err, Code, zfs_fail, fail, codes, ◌>>=◌, ◌>>◌, ◌≡◌, refl, arith, All,
}
use libblockdev.Utils.Args.{ExtraArg, slots, written, flat_args}
use libblockdev.Utils.Commands.{Commands}
use libblockdev.Zfs.Names.{validate_name_not_option, validate_pool_name, NotOption}
pub use libblockdev.Utils.Commands.{Argv}

unfoldable pub count_extra_args_from : ℕ → List ExtraArg → ℕ
count_extra_args_from n [] = n
count_extra_args_from n (x ∷ xs) = count_extra_args_from (n + slots x.opt + slots x.val) xs

unfoldable pub count_extra_args : Option (List ExtraArg) → ℕ
unfolding count_extra_args_from
count_extra_args none = 0
count_extra_args (some extra) = count_extra_args_from 0 extra

unfoldable pub append_extra_args_loop : List Bytes → List ExtraArg → List Bytes
append_extra_args_loop argv [] = argv
append_extra_args_loop argv (x ∷ xs) =
    append_extra_args_loop ((argv ++ written x.opt) ++ written x.val) xs

-- The array so far, whose length is `*next_arg`.
unfoldable pub append_extra_args : List Bytes → Option (List ExtraArg) → List Bytes
unfolding append_extra_args_loop
append_extra_args argv none = argv
append_extra_args argv (some extra) = append_extra_args_loop argv extra

unfoldable pub validate_vdevs : List Bytes → Result (Unit {0})
validate_vdevs [] = ok tt
validate_vdevs (v ∷ vs) = validate_name_not_option (some v) (codes "Vdev") >> validate_vdevs vs

unfoldable pub check_vdevs : Option (List Bytes) → Result (List Bytes)
unfolding validate_vdevs
check_vdevs none = fail zfs_fail (codes "No vdevs given")
check_vdevs (some []) = fail zfs_fail (codes "No vdevs given")
check_vdevs (some (v ∷ vs)) = validate_vdevs (v ∷ vs) >> ok (v ∷ vs)

unfoldable pub check_raid_level : Option Bytes → Result (Unit {0})
check_raid_level none = ok tt
check_raid_level (some level) = validate_name_not_option (some level) (codes "RAID level")

unfoldable pub check_pool_name : Option Bytes → Result Bytes
check_pool_name none = validate_pool_name none >> ok []
check_pool_name (some name) = validate_pool_name (some name) >> ok name

abbrev pub optional : Option Bytes → List Bytes
optional none = []
optional (some a) = a ∷ []

unfoldable pub pool_create_argv :
    Result (Unit {0})
    → Option Bytes
    → Option (List Bytes)
    → Option Bytes
    → Option (List ExtraArg)
    → Result Argv
unfolding check_vdevs check_raid_level check_pool_name
pool_create_argv deps name vdevs raid_level extra = do
  n ← check_pool_name name
  check_raid_level raid_level
  vs ← check_vdevs vdevs
  deps
  ok (record {
    allocated = 4 + count_extra_args extra + length vs + length (optional raid_level) + 1;
    args =
        append_extra_args (codes "zpool" ∷ codes "create" ∷ []) extra
        ++ (codes "--" ∷ n ∷ (optional raid_level ++ vs));
  })

unfoldable pub check_name : Option Bytes → Bytes → Result Bytes
check_name none param = validate_name_not_option none param >> ok []
check_name (some name) param = validate_name_not_option (some name) param >> ok name

unfoldable pub search_args : List Bytes → List Bytes
search_args [] = []
search_args (d ∷ ds) = codes "-d" ∷ d ∷ search_args ds

abbrev pub dirs_of : Option (List Bytes) → List Bytes
dirs_of none = []
dirs_of (some ds) = ds

unfoldable pub check_new_name : Option Bytes → Result (Unit {0})
check_new_name none = ok tt
check_new_name (some name) = validate_pool_name (some name)

unfoldable pub pool_import_argv :
    Result (Unit {0})
    → Option Bytes
    → Option Bytes
    → Option (List Bytes)
    → Bool
    → Option (List ExtraArg)
    → Result Argv
unfolding check_name check_new_name search_args
pool_import_argv deps name_or_guid new_name search_dirs force extra = do
  n ← check_name name_or_guid (codes "Pool name or GUID")
  check_new_name new_name
  deps
  ok (record {
    allocated =
        4
        + (if force then 1 else 0)
        + length (dirs_of search_dirs) * 2
        + count_extra_args extra
        + length (optional new_name)
        + 1;
    args =
        append_extra_args
          (codes "zpool"
            ∷ codes "import"
            ∷ ((if force then codes "-f" ∷ [] else []) ++ search_args (dirs_of search_dirs)))
          extra
        ++ (codes "--" ∷ n ∷ optional new_name);
  })
