-- ===== src/Lvm/Config.antt =====
-- src/plugins/lvm/lvm-common.c: the global configuration of the plugin, and the commands that use it.
-- The two global strings are a record; the lock makes each access one step. An argument array is a list
-- of pointers, which the program that is run reads up to the first NULL.
pub mod Filter
pub mod Arguments
use libblockdev.Base.{
  ℕ, zero, suc, ◌+◌, Option, none, some, List, [], ◌∷◌, ◌++◌, Bool, true, false, not, ◌&&◌, ◌||◌,
  Bytes, is_empty, if◌then◌else◌, ◌==◌, Result, ok, err, GError, Code, lvm_fail,
  lvm_devices_disabled, fail, ◌>>=◌, ◌>>◌, codes, chomp, strsplit_set, split_parts, is_digit,
  is_space, ◌≡◌, ◌≢◌, refl, ap, sym, ◌∙◌, arith, All, Bool-cases, inl, inr, append-nil,
  append_assoc, has_prefix, drop, length, ◌⊎◌,
}
use libblockdev.Utils.Args.{ExtraArg}
use libblockdev.Utils.Commands.{Commands}

pub record Globals : Type 0 where
  pub config_str : Option Bytes
  pub devices_str : Option Bytes

unfoldable pub set_global_config : Option Bytes → Globals → Globals
set_global_config none g = record g { config_str = none }
set_global_config (some new_config) g = record g {
  config_str = if is_empty new_config then none else some new_config;
}

unfoldable pub get_global_config : Globals → Bytes
get_global_config g = elim g.config_str [ none ↦ [] | some c ↦ c ]

-- `g_strjoinv (",", devices)`
unfoldable pub join_comma : List Bytes → Bytes
join_comma [] = []
join_comma (a ∷ []) = a
join_comma (a ∷ (b ∷ rest)) = a ++ b',' ∷ join_comma (b ∷ rest)

new_devices : Option (List Bytes) → Option Bytes
unfolding join_comma
new_devices none = none
new_devices (some []) = none
new_devices (some (d ∷ ds)) = some (join_comma (d ∷ ds))

-- `bd_lvm_is_tech_avail (BD_LVM_TECH_DEVICES, 0, error)` is an argument.
unfoldable pub set_devices_filter :
    Result (Unit {0}) → Option (List Bytes) → Globals → Result Globals
unfolding new_devices
set_devices_filter avail devices g = avail >> ok (record g { devices_str = new_devices devices })

unfoldable pub get_devices_filter : Globals → Option (List Bytes)
unfolding strsplit_set
get_devices_filter g = elim g.devices_str [
  | none ↦ none
  | some s ↦ some (strsplit_set (λ c. c == b',') s)
]

-- `--config=%s`, if a configuration is set
abbrev pub config_arg : Globals → Option Bytes
config_arg g = elim g.config_str [ none ↦ none | some c ↦ some (codes "--config=" ++ c) ]

-- What a program gets of an argument array.
unfoldable pub until_null : List (Option Bytes) → List Bytes
until_null [] = []
until_null (none ∷ rest) = []
until_null (some a ∷ rest) = a ∷ until_null rest

-- The slots that are written only if there is something to write.
abbrev pub slot_if : Bool → Bytes → List (Option Bytes)
slot_if b a = if b then some a ∷ [] else []

abbrev pub slot_of : Option Bytes → List (Option Bytes)
slot_of none = []
slot_of (some a) = some a ∷ []

unfoldable pub conf_spec : Option Bytes → Option Bytes → Option Bytes
conf_spec none setting = none
conf_spec (some section) none = some section
conf_spec (some section) (some setting) = some (section ++ b'/' ∷ setting)

unfoldable pub config_get_args :
    Globals → Option Bytes → Option Bytes → Bytes → Bool → Bool → List (Option Bytes)
unfolding conf_spec
config_get_args g section setting type values_only global_config =
    some (codes "lvmconfig")
    ∷ some (codes "--typeconfig")
    ∷ some type
    ∷ conf_spec section setting
    ∷ (slot_if values_only (codes "--valuesonly")
        ++ (if global_config then slot_of (config_arg g) else []))

refused : Option Bytes → Option Bytes → Bool
refused none (some setting) = true
refused _ _ = false

unfoldable pub config_get :
    Commands
    → Globals
    → Option Bytes
    → Option Bytes
    → Bytes
    → Bool
    → Bool
    → Option (List ExtraArg)
    → Result Bytes
unfolding config_get_args until_null refused
config_get cmd g section setting type values_only global_config extra =
    if refused section setting
    then fail lvm_fail (codes "Specifying setting without section is not supported.")
    else cmd.capture_output
        (until_null (config_get_args g section setting type values_only global_config)) extra
      >>= λ out. ok (chomp out)

unfoldable pub vgcfgbackup_restore :
    Commands → Globals → Bytes → Bytes → Option Bytes → Option (List ExtraArg) → Result (Unit {0})
unfolding until_null
vgcfgbackup_restore cmd g command vg_name file extra =
    cmd.report_error
      (until_null (
        some (codes "lvm")
        ∷ some command
        ∷ ((elim file [ none ↦ [] | some f ↦ some (codes "-f") ∷ some f ∷ [] ])
            ++ (some vg_name ∷ slot_of (config_arg g)))))
      extra

unfoldable pub vgcfgbackup :
    Commands → Globals → Bytes → Option Bytes → Option (List ExtraArg) → Result (Unit {0})
unfolding vgcfgbackup_restore
vgcfgbackup cmd g = vgcfgbackup_restore cmd g (codes "vgcfgbackup")

unfoldable pub vgcfgrestore :
    Commands → Globals → Bytes → Option Bytes → Option (List ExtraArg) → Result (Unit {0})
unfolding vgcfgbackup_restore
vgcfgrestore cmd g = vgcfgbackup_restore cmd g (codes "vgcfgrestore")

-- `sscanf (output, "use_devicesfile=%u", &enabled)` is an argument: the number, if one is read.
read_enabled : (Bytes → Option ℕ) → Bytes → Bool
read_enabled scan out = elim (scan out) [ none ↦ false | some n ↦ not (n == 0) ]

enabled_args : Globals → Bytes → List Bytes
unfolding until_null
enabled_args g kind = until_null (
    some (codes "lvmconfig")
    ∷ some (codes "--typeconfig")
    ∷ some kind
    ∷ some (codes "devices/use_devicesfile")
    ∷ slot_of (config_arg g))

-- The second call looks for "# use_devicesfile=%u".
unfoldable pub lvm_devices_enabled :
    Commands → (Bytes → Option ℕ) → (Bytes → Option ℕ) → Globals → Bool
unfolding read_enabled enabled_args
lvm_devices_enabled cmd scan_full scan_default g =
    elim (cmd.capture_output (enabled_args g (codes "full")) none) [
      | ok out ↦ read_enabled scan_full out
      | err e ↦ elim (cmd.capture_output (enabled_args g (codes "default")) none) [
        | ok out ↦ read_enabled scan_default out
        | err e ↦ false
      ]
    ]

abbrev devices_args : Bytes → Bytes → Option Bytes → List Bytes
devices_args option device none = codes "lvmdevices" ∷ option ∷ device ∷ []
devices_args option device (some f) =
    codes "lvmdevices" ∷ option ∷ device ∷ (codes "--devicesfile=" ++ f) ∷ []

unfoldable pub devices_change :
    Commands
    → Result (Unit {0})
    → Bool
    → Bytes
    → Bytes
    → Option Bytes
    → Option (List ExtraArg)
    → Result (Unit {0})
devices_change cmd avail enabled option device devices_file extra =
    avail
    >> (if not enabled
        then fail lvm_devices_disabled (codes "LVM devices file not enabled.")
        else cmd.report_error (devices_args option device devices_file) extra)

unfoldable pub devices_add :
    Commands
    → Result (Unit {0})
    → Bool
    → Bytes
    → Option Bytes
    → Option (List ExtraArg)
    → Result (Unit {0})
unfolding devices_change
devices_add cmd avail enabled = devices_change cmd avail enabled (codes "--adddev")

unfoldable pub devices_delete :
    Commands
    → Result (Unit {0})
    → Bool
    → Bytes
    → Option Bytes
    → Option (List ExtraArg)
    → Result (Unit {0})
unfolding devices_change
devices_delete cmd avail enabled = devices_change cmd avail enabled (codes "--deldev")
