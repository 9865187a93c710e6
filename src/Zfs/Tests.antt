-- ===== src/Zfs/Tests.antt =====
-- Concrete runs of src/plugins/zfs.c.
use libblockdev.Zfs.Caps.{caps_of}
use libblockdev.Zfs.Version.{Versions}
use libblockdev.Base.{
  zero, suc, false, ◌+◌, Option, none, some, List, [], ◌∷◌, ◌++◌, true, ◌≡◌, ◌≢◌, ◌↔◌, refl, Bytes,
  codes, ok, fail, exec_failed, length, All, strsplit_set,
}
use libblockdev.Utils.Args.{ExtraArg}
use libblockdev.Zfs.Names.{
  validate_pool_name, IsPoolName, validate_pool_name_iff, NotOption, validate_name_not_option,
}
use libblockdev.Zfs.Pool.{
  Argv, optional, pool_create_argv, pool_import_argv, count_extra_args, append_extra_args,
}
use libblockdev.Zfs.Pool.Guards.{extra_of}
use libblockdev.Zfs.Pool.Operands.{pool_create_argv-ok}
use libblockdev.Zfs.Version.{Plugin, no_caps, normalize_version}
use libblockdev.Zfs.Caps.{probe_runtime_caps}

validate_pool_name_example :
    ((validate_pool_name (some (codes "Mirror-1")) ≡ ok tt) ↔ IsPoolName (codes "Mirror-1"))
    × (validate_pool_name none ≢ ok tt)
validate_pool_name_example = validate_pool_name_iff (codes "Mirror-1")

-- `log` is reserved, `logs` is not.
reserved_names :
    (validate_pool_name (some (codes "logs")) ≡ ok tt)
    × (validate_pool_name (some (codes "LOG")) ≢ ok tt)
unfolding validate_pool_name
reserved_names = (refl, λ e. cc)

abbrev extras : Option (List ExtraArg)
extras = some (record { opt = some (codes "-o"); val = some (codes "ashift=12") } ∷ [])

abbrev disks : List Bytes
disks = codes "sda" ∷ codes "sdb" ∷ []

abbrev created : Argv
created = record {
  allocated = 10;
  args =
      codes "zpool"
      ∷ codes "create"
      ∷ codes "-o"
      ∷ codes "ashift=12"
      ∷ codes "--"
      ∷ codes "tank"
      ∷ codes "mirror"
      ∷ disks;
}

created_eq :
    pool_create_argv (ok tt) (some (codes "tank")) (some disks) (some (codes "mirror")) extras
    ≡ ok created
unfolding pool_create_argv validate_pool_name validate_name_not_option count_extra_args
    append_extra_args
created_eq = refl

pool_create_argv_example :
    (n : Bytes) × (vs : List Bytes) × (some (codes "tank") ≡ some n)
    × (some disks ≡ some vs)
    × (created.args
        ≡ (codes "zpool" ∷ codes "create" ∷ extra_of extras)
          ++ (codes "--" ∷ n ∷ (optional (some (codes "mirror")) ++ vs)))
    × All NotOption (n ∷ (optional (some (codes "mirror")) ++ vs))
    × (length created.args + 1 ≡ created.allocated)
pool_create_argv_example =
    pool_create_argv-ok (ok tt) (some (codes "tank")) (some disks) (some (codes "mirror")) extras
      created_eq

abbrev imported : Argv
imported = record {
  allocated = 9;
  args =
      codes "zpool"
      ∷ codes "import"
      ∷ codes "-f"
      ∷ codes "-d"
      ∷ codes "/dev"
      ∷ codes "--"
      ∷ codes "tank"
      ∷ codes "tank2"
      ∷ [];
}

imported_eq :
    pool_import_argv
      (ok tt)
      (some (codes "tank"))
      (some (codes "tank2"))
      (some (codes "/dev" ∷ []))
      true
      none
    ≡ ok imported
unfolding pool_import_argv validate_pool_name validate_name_not_option count_extra_args
    append_extra_args
imported_eq = refl

normalized : normalize_version (codes "zfs-2.1.5-1.el9") ≡ some (codes "2.1.5")
unfolding normalize_version
normalized = refl

-- Every run of `zfs version` prints 0.7.5.
abbrev old_version : Versions
old_version n = ok (codes "zfs-0.7.5-1ubuntu16")

-- The first run fails, those behind it print 2.1.5.
abbrev late_version : Versions
late_version zero = fail exec_failed []
late_version (suc n) = ok (codes "zfs-2.1.5-1.el9")

abbrev fresh : Plugin
fresh = record { avail = 3; cached = none; caps = no_caps; error = none; asked = 0 }

-- Of 0.7.5, bookmarks are there and trimming is not.
probed : (probe_runtime_caps old_version fresh).caps.bookmark_supported ≡ true
unfolding probe_runtime_caps strsplit_set
probed = refl

abbrev cached : Plugin
cached = record fresh { cached = some (codes "2.1.5") }

-- The failure of the first question is kept: bookmarks stay off.
late_caps : (probe_runtime_caps late_version fresh).caps ≡ caps_of false true
unfolding probe_runtime_caps strsplit_set
late_caps = refl
