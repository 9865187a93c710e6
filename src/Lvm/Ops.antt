-- ===== src/Lvm/Ops.antt =====
-- src/plugins/lvm/lvm.c: what its operations share. An operation reads and changes the state of the plugin
-- and runs `lvm`; it returns nothing where the source returns FALSE or NULL. The reports of progress to
-- callbacks are left out, and the lock makes each call one step.
pub mod Volumes
pub mod Logical
pub mod Thin
pub mod Caches
pub mod Vdo
pub mod Queries
pub mod Columns
pub mod Lists
pub mod Tech
pub mod Tests
use mathlib.Core.Option
use libblockdev.Base.{
  ℕ, suc, ◌+◌, ◌/◌, Option, none, some, List, [], ◌∷◌, ◌++◌, Bool, true, false, not, Bytes,
  if◌then◌else◌, ◌==◌, length, Result, ok, err, GError, prefix_error, codes, decimal,
}
unfoldable pub use libblockdev.Base.Effects.{proceed, ◌>>=◌, ◌>>◌, pure}
use libblockdev.Utils.Args.{ExtraArg}
use libblockdev.Utils.Commands.{Commands, Argv}
use libblockdev.Utils.Version.{Tools, UtilDep}
use libblockdev.Deps.{wanted, State, FeatureDep, check_deps, check_features, check_module_deps}
use libblockdev.Lvm.Config.{Globals, config_arg}

-- A run of `lvm`: the arguments of the operation, the array made from them, and the extra arguments.
pub record Call : Type 0 where
  pub inner : Argv
  pub argv : Argv
  pub extra : Option (List ExtraArg)

-- The static variables of the plugin with `*error` of the caller, and two logs of what was run so far:
-- `calls` has the runs of `lvm` that carry out an operation, which are those of the three functions below;
-- `checks` the runs by which the plugin asks for the version or the features of its tools.
pub record World : Type 0 where
  pub avail : ℕ
  pub features : ℕ
  pub modules : ℕ
  pub error : Option GError
  pub globals : Globals
  pub calls : List Call
  pub checks : List (List Bytes)

-- The machine: how a program of an operation ends may depend on those that were run before. `tools`
-- answers what the plugin asks for its dependencies, `fs_tools` what `bd_lvm_lvresize` asks for the
-- version itself. `have_module` is `bd_utils_have_kernel_module`, and `atoi` that of the C library;
-- `scan_hhu` is `sscanf (s, "%hhu", &n)`, with the number if one is read.
pub record Env : Type 0 where
  pub tools : Tools
  pub fs_tools : Tools
  pub commands : List Call → Commands
  pub report_progress :
      List Call → List Bytes → Option (List ExtraArg) → (Bytes → Option ℕ) → Result (Unit {0})
  pub have_module : Bytes → Result Bool
  pub atoi : Bytes → ℕ
  pub scan_hhu : Bytes → Option ℕ

abbrev pub M : Type 0 → Type 0
M A = World → World × Option A

-- A function that takes only its arguments and `error`.
unfoldable pub checked : {A : Type 0} → Result A → M A
checked (ok a) w = (w, some a)
checked (err e) w = (record w { error = some e }, none)

-- `g_prefix_error (&l_error, text)` where a part has failed.
abbrev pub with_prefix : {A : Type 0} → Bytes → World × Option A → World × Option A
with_prefix text (w, some a) = (w, some a)
with_prefix text (w, none) = (record w { error = Option.map (prefix_error text) w.error }, none)

unfoldable pub prefixed : {A : Type 0} → Bytes → M A → M A
prefixed text m w = with_prefix text (m w)

abbrev pub lvm_version : Bytes → UtilDep
lvm_version version = record {
  name = codes "lvm";
  version = some version;
  ver_arg = some (codes "version");
  ver_regexp = some (codes "LVM version:\\s+([\\d\\.]+)");
}

abbrev pub lvm_deps : List UtilDep
lvm_deps =
    lvm_version (codes "2.02.116")
    ∷ record { name = codes "lvmdevices"; version = none; ver_arg = none; ver_regexp = none }
    ∷ record {
      name = codes "lvmconfig";
      version = some (codes "2.03.17");
      ver_arg = some (codes "--version");
      ver_regexp = some (codes "LVM version:\\s+([\\d\\.]+)");
    }
    ∷ []

abbrev pub passed : Bool → Option (Unit {0})
passed true = some tt
passed false = none

-- `version_arg ? version_arg : "--version"`
abbrev pub get_or_default : Option Bytes → Bytes
get_or_default none = codes "--version"
get_or_default (some arg) = arg

-- What `bd_utils_check_util_version` runs.
abbrev pub version_run : Tools → UtilDep → List (List Bytes)
version_run tools d = elim d.version [
  | none ↦ []
  | some v ↦ if tools.find_program d.name then (d.name ∷ get_or_default d.ver_arg ∷ []) ∷ [] else []
]

-- What `_check_util_feature` runs.
abbrev pub feature_run : Tools → FeatureDep → List (List Bytes)
feature_run tools d =
    if tools.find_program d.util_name then (d.util_name ∷ d.feature_arg ∷ []) ∷ [] else []

-- What the loop over the dependencies from `i` on runs: one check for each that is wanted.
abbrev pub checks_from :
    {D : Type 0} → (D → List (List Bytes)) → ℕ → ℕ → ℕ → List D → List (List Bytes)
checks_from runs req val i [] = []
checks_from runs req val i (d ∷ ds) =
    (if wanted i req val then runs d else []) ++ checks_from runs req val (suc i) ds

-- `check_deps (&avail_deps, mask, deps, DEPS_LAST, &deps_check_lock, error)`
unfoldable pub need_tools : Env → ℕ → M (Unit {0})
unfolding check_deps
need_tools env mask w =
    let (s, there) =
      check_deps env.tools mask lvm_deps (record { avail = w.avail; error = w.error }) in
    (
      record w {
        avail = s.avail;
        error = s.error;
        checks = w.checks ++ checks_from (version_run env.tools) mask w.avail 0 lvm_deps;
      },
      passed there,
    )

abbrev feature : Bytes → FeatureDep
feature name = record {
  util_name = codes "lvm";
  feature = name;
  feature_arg = codes "segtypes";
  feature_regexp = none;
}

abbrev lvm_features : List FeatureDep
lvm_features = feature (codes "vdo") ∷ feature (codes "writecache") ∷ []

unfoldable pub need_features : Env → ℕ → M (Unit {0})
unfolding check_features
need_features env mask w =
    let (s, there) =
      check_features env.tools mask lvm_features (record { avail = w.features; error = w.error }) in
    (
      record w {
        features = s.avail;
        error = s.error;
        checks = w.checks ++ checks_from (feature_run env.tools) mask w.features 0 lvm_features;
      },
      passed there,
    )

unfoldable pub need_modules : Env → ℕ → M (Unit {0})
unfolding check_module_deps
need_modules env mask w =
    let (s, there) =
      check_module_deps env.have_module mask (codes "dm-vdo" ∷ [])
        (record { avail = w.modules; error = w.error }) in
    (record w { modules = s.avail; error = s.error }, passed there)

abbrev pub devices_arg : Globals → Option Bytes
devices_arg g = Option.map (λ d. codes "--devices=" ++ d) g.devices_str

abbrev pub optional : {A : Type 0} → Option A → List A
optional none = []
optional (some a) = a ∷ []

-- `lvm` in front of the arguments, and the global configuration and devices behind them.
unfoldable pub lvm_call : Argv → Option (List ExtraArg) → Globals → Call
lvm_call inner extra g = record {
  inner = inner;
  argv = record {
    allocated = length inner.args + 4;
    args = codes "lvm" ∷ (inner.args ++ (optional (config_arg g) ++ optional (devices_arg g)));
  };
  extra = extra;
}

abbrev pub log : Call → World → World
log c w = record w { calls = w.calls ++ (c ∷ []) }

-- How the program that is run ends is the last argument.
unfoldable pub run_lvm :
    {A : Type 0} → Argv → Option (List ExtraArg) → (World → Call → Result A) → M A
unfolding checked lvm_call
run_lvm inner extra ends w =
    checked (ends w (lvm_call inner extra w.globals)) (log (lvm_call inner extra w.globals) w)

abbrev pub reported : Env → Option (List ExtraArg) → World → Call → Result (Unit {0})
reported env extra w c = (env.commands w.calls).report_error c.argv.args extra

abbrev pub captured : Env → Option (List ExtraArg) → World → Call → Result Bytes
captured env extra w c = (env.commands w.calls).capture_output c.argv.args extra

abbrev pub progressed :
    Env → Option (List ExtraArg) → (Bytes → Option ℕ) → World → Call → Result (Unit {0})
progressed env extra prog_extract w c = env.report_progress w.calls c.argv.args extra prog_extract

unfoldable pub call_lvm_and_report_error : Env → Argv → Option (List ExtraArg) → M (Unit {0})
unfolding need_tools run_lvm
call_lvm_and_report_error env inner extra = do
  need_tools env 1
  run_lvm inner extra (reported env extra)

unfoldable pub call_lvm_and_capture_output : Env → Argv → Option (List ExtraArg) → M Bytes
unfolding need_tools run_lvm
call_lvm_and_capture_output env inner extra = do
  need_tools env 1
  run_lvm inner extra (captured env extra)

unfoldable pub call_lvm_and_report_progress :
    Env → Argv → Option (List ExtraArg) → (Bytes → Option ℕ) → M (Unit {0})
unfolding need_tools run_lvm
call_lvm_and_report_progress env inner extra prog_extract = do
  need_tools env 1
  run_lvm inner extra (progressed env extra prog_extract)

-- `const gchar *args[n]`
abbrev pub slots_for : ℕ → List Bytes → Argv
slots_for n args = record { allocated = n; args = args }

-- `"%"G_GUINT64_FORMAT"K"` of a size in bytes
abbrev pub in_kib : ℕ → Bytes
in_kib size = decimal (size / 1024) ++ codes "K"

-- `"%s/%s"`
abbrev pub spec : Bytes → Bytes → Bytes
spec vg_name lv_name = vg_name ++ b'/' ∷ lv_name

abbrev pub flag : Bool → Bytes → List Bytes
flag b word = if b then word ∷ [] else []

-- An option with a size that is left out if it is 0.
abbrev pub size_arg : Bytes → ℕ → List Bytes
size_arg option size = flag (not (size == 0)) (option ++ in_kib size)
