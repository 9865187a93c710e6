-- ===== src/Lvm/Ops/Vdo.antt =====
-- src/plugins/lvm/lvm.c: the operations on VDO pools that change them.
use libblockdev.Base.{
  ℕ, ◌*◌, Option, none, some, List, [], ◌∷◌, ◌++◌, Bool, true, false, Bytes, if◌then◌else◌, ◌==◌,
  codes, decimal, ◌/◌,
}
use libblockdev.Utils.Args.{ExtraArg}
use libblockdev.Utils.Commands.{Argv}
use libblockdev.Lvm.Modes.{WritePolicy, get_vdo_write_policy_str}
use libblockdev.Lvm.Config.{Globals}
use libblockdev.Lvm.Ops.{
  Env, World, M, ◌>>=◌, checked, slots_for, in_kib, spec, call_lvm_and_report_error,
}

abbrev pub name_words : Option Bytes → List Bytes
name_words none = []
name_words (some name) = codes "-n" ∷ name ∷ []

unfoldable pub vdo_pool_create_args : Bytes → Bytes → Option Bytes → ℕ → ℕ → Bool → Bool → Argv
vdo_pool_create_args vg_name lv_name pool_name data_size virtual_size compression deduplication =
    slots_for 16 (
      codes "lvcreate"
      ∷ codes "--type"
      ∷ codes "vdo"
      ∷ codes "-n"
      ∷ lv_name
      ∷ codes "-L"
      ∷ in_kib data_size
      ∷ codes "-V"
      ∷ in_kib virtual_size
      ∷ codes "--compression"
      ∷ (if compression then codes "y" else codes "n")
      ∷ codes "--deduplication"
      ∷ (if deduplication then codes "y" else codes "n")
      ∷ codes "-y"
      ∷ elim pool_name [ none ↦ vg_name | some p ↦ spec vg_name p ]
      ∷ [])

unfoldable pub vdo_pool_convert_args : Bytes → Bytes → Option Bytes → ℕ → Bool → Bool → Argv
vdo_pool_convert_args vg_name pool_lv name virtual_size compression deduplication = slots_for 14 (
    codes "lvconvert"
    ∷ codes "--yes"
    ∷ codes "--type"
    ∷ codes "vdo-pool"
    ∷ codes "--compression"
    ∷ (if compression then codes "y" else codes "n")
    ∷ codes "--deduplication"
    ∷ (if deduplication then codes "y" else codes "n")
    ∷ (name_words name ++ (codes "-V" ∷ in_kib virtual_size ∷ spec vg_name pool_lv ∷ [])))

unfoldable pub vdo_set_args : Bytes → Bytes → Bytes → Bool → Argv
vdo_set_args vg_name pool_name op enable = slots_for 5 (
    codes "lvchange" ∷ op ∷ (if enable then codes "y" else codes "n") ∷ spec vg_name pool_name ∷ [])

abbrev pub or_empty : Option Bytes → Bytes
or_empty none = []
or_empty (some s) = s

abbrev memory_words : ℕ → Bytes
memory_words index_memory =
    if index_memory == 0
    then []
    else codes "vdo_index_memory_size_mb=" ++ (decimal (index_memory / (1024 * 1024)) ++ codes " ")

-- The configuration while a VDO pool is made: what is set, and the settings of the pool.
unfoldable pub vdo_config : ℕ → Bytes → Globals → Globals
unfolding decimal
vdo_config index_memory policy g = record g {
  config_str = some (
      or_empty g.config_str
      ++ (codes " allocation {"
          ++ (memory_words index_memory
              ++ (codes "vdo_write_policy=\"" ++ (policy ++ codes "\"}")))));
}

-- The configuration as it was before.
abbrev pub restored : {A : Type 0} → Option Bytes → World × Option A → World × Option A
restored old_config (w, r) =
    (record w { globals = record (w.globals) { config_str = old_config } }, r)

unfoldable pub with_config : {A : Type 0} → (Globals → Globals) → M A → M A
with_config change m w =
    restored (w.globals.config_str) (m (record w { globals = change w.globals }))

unfoldable pub vdo_pool_create :
    Env
    → Bytes
    → Bytes
    → Option Bytes
    → ℕ
    → ℕ
    → ℕ
    → Bool
    → Bool
    → WritePolicy
    → Option (List ExtraArg)
    → M (Unit {0})
unfolding vdo_pool_create_args vdo_config with_config get_vdo_write_policy_str
vdo_pool_create env vg_name lv_name pool_name data_size virtual_size index_memory compression
      deduplication write_policy extra =
    do
      policy ← checked (get_vdo_write_policy_str write_policy)
      with_config (vdo_config index_memory policy) (
          call_lvm_and_report_error env
            (vdo_pool_create_args vg_name lv_name pool_name data_size virtual_size compression
              deduplication)
            extra)

unfoldable pub vdo_pool_convert :
    Env
    → Bytes
    → Bytes
    → Option Bytes
    → ℕ
    → ℕ
    → Bool
    → Bool
    → WritePolicy
    → Option (List ExtraArg)
    → M (Unit {0})
unfolding vdo_pool_convert_args vdo_config with_config get_vdo_write_policy_str
vdo_pool_convert env vg_name pool_lv name virtual_size index_memory compression deduplication
      write_policy extra =
    do
      policy ← checked (get_vdo_write_policy_str write_policy)
      with_config (vdo_config index_memory policy) (
          call_lvm_and_report_error env
            (vdo_pool_convert_args vg_name pool_lv name virtual_size compression deduplication)
            extra)

unfoldable pub vdo_set_compression_deduplication :
    Env → Bytes → Bytes → Bytes → Bool → Option (List ExtraArg) → M (Unit {0})
unfolding vdo_set_args
vdo_set_compression_deduplication env vg_name pool_name op enable extra =
    call_lvm_and_report_error env (vdo_set_args vg_name pool_name op enable) extra

unfoldable pub vdo_enable_compression : Env → Bytes → Bytes → Option (List ExtraArg) → M (Unit {0})
unfolding vdo_set_compression_deduplication
vdo_enable_compression env vg_name pool_name extra =
    vdo_set_compression_deduplication env vg_name pool_name (codes "--compression") true extra

unfoldable pub vdo_disable_compression : Env → Bytes → Bytes → Option (List ExtraArg) → M (Unit {0})
unfolding vdo_set_compression_deduplication
vdo_disable_compression env vg_name pool_name extra =
    vdo_set_compression_deduplication env vg_name pool_name (codes "--compression") false extra

unfoldable pub vdo_enable_deduplication :
    Env → Bytes → Bytes → Option (List ExtraArg) → M (Unit {0})
unfolding vdo_set_compression_deduplication
vdo_enable_deduplication env vg_name pool_name extra =
    vdo_set_compression_deduplication env vg_name pool_name (codes "--deduplication") true extra

unfoldable pub vdo_disable_deduplication :
    Env → Bytes → Bytes → Option (List ExtraArg) → M (Unit {0})
unfolding vdo_set_compression_deduplication
vdo_disable_deduplication env vg_name pool_name extra =
    vdo_set_compression_deduplication env vg_name pool_name (codes "--deduplication") false extra
