-- ===== src/Lvm/Ops/Thin.antt =====
-- src/plugins/lvm/lvm.c: the operations on thin pools, thin volumes and their snapshots.
use libblockdev.Base.{ℕ, Option, none, some, List, [], ◌∷◌, ◌++◌, Bytes, codes}
use libblockdev.Utils.Args.{ExtraArg}
use libblockdev.Utils.Commands.{Argv}
use libblockdev.Lvm.Ops.{Env, M, slots_for, in_kib, spec, size_arg, call_lvm_and_report_error}

abbrev pub profile_arg : Option Bytes → List Bytes
profile_arg none = []
profile_arg (some profile) = (codes "--profile=" ++ profile) ∷ []

abbrev pub thinpool_words : Option Bytes → List Bytes
thinpool_words none = []
thinpool_words (some pool_name) = codes "--thinpool" ∷ pool_name ∷ []

unfoldable pub thpoolcreate_args : Bytes → Bytes → ℕ → ℕ → ℕ → Option Bytes → Argv
thpoolcreate_args vg_name lv_name size md_size chunk_size profile = slots_for 9 (
    codes "lvcreate"
    ∷ codes "-T"
    ∷ codes "-L"
    ∷ in_kib size
    ∷ (size_arg (codes "--poolmetadatasize=") md_size
        ++ (size_arg (codes "--chunksize=") chunk_size
            ++ (profile_arg profile ++ (spec vg_name lv_name ∷ [])))))

unfoldable pub thpoolcreate :
    Env → Bytes → Bytes → ℕ → ℕ → ℕ → Option Bytes → Option (List ExtraArg) → M (Unit {0})
unfolding thpoolcreate_args
thpoolcreate env vg_name lv_name size md_size chunk_size profile extra =
    call_lvm_and_report_error env
      (thpoolcreate_args vg_name lv_name size md_size chunk_size profile) extra

unfoldable pub thlvcreate_args : Bytes → Bytes → Bytes → ℕ → Argv
thlvcreate_args vg_name pool_name lv_name size = slots_for 8 (
    codes "lvcreate"
    ∷ codes "-T"
    ∷ spec vg_name pool_name
    ∷ codes "-V"
    ∷ in_kib size
    ∷ codes "-n"
    ∷ lv_name
    ∷ [])

unfoldable pub thlvcreate : Env → Bytes → Bytes → Bytes → ℕ → Option (List ExtraArg) → M (Unit {0})
unfolding thlvcreate_args
thlvcreate env vg_name pool_name lv_name size extra =
    call_lvm_and_report_error env (thlvcreate_args vg_name pool_name lv_name size) extra

unfoldable pub thsnapshotcreate_args : Bytes → Bytes → Bytes → Option Bytes → Argv
thsnapshotcreate_args vg_name origin_name snapshot_name pool_name = slots_for 8 (
    codes "lvcreate"
    ∷ codes "-s"
    ∷ codes "-n"
    ∷ snapshot_name
    ∷ (thinpool_words pool_name ++ (spec vg_name origin_name ∷ [])))

unfoldable pub thsnapshotcreate :
    Env → Bytes → Bytes → Bytes → Option Bytes → Option (List ExtraArg) → M (Unit {0})
unfolding thsnapshotcreate_args
thsnapshotcreate env vg_name origin_name snapshot_name pool_name extra =
    call_lvm_and_report_error env
      (thsnapshotcreate_args vg_name origin_name snapshot_name pool_name) extra
