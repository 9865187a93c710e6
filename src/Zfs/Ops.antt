-- ===== src/Zfs/Ops.antt =====
-- src/plugins/zfs.c: what its operations share. An operation reads and changes the state of the plugin
-- and starts programs; it returns nothing where the source returns FALSE, NULL or UNKNOWN with an error.
pub mod Pools
pub mod Vdevs
pub mod Datasets
pub mod Snapshots
pub mod Keys
pub mod Zvols
pub mod Trees
use libblockdev.Base.{
  ℕ, zero, suc, Option, none, some, List, [], ◌∷◌, ◌++◌, Bool, Bytes, if◌then◌else◌, Result, ok,
  err, GError, codes,
}
unfoldable pub use libblockdev.Base.Effects.{proceed, ◌>>=◌, ◌>>◌, pure}
use libblockdev.Deps.{check_deps}
use libblockdev.Utils.Commands.{Commands}
use libblockdev.Utils.Version.{Tools}
use libblockdev.Zfs.Version.{Plugin, Versions, Caps}
use libblockdev.Zfs.Caps.{probe_runtime_caps, ensure_cap, zfs_deps, with_state}
use libblockdev.Zfs.Names.{validate_name_not_option}
use libblockdev.Zfs.Pool.{Argv}
use libblockdev.Zfs.VdevTree.{FileKind}
use libblockdev.Zfs.Scrub.{Real}

-- A program that was started: its array, and what was written to its input.
pub record Call : Type 0 where
  pub argv : Argv
  pub input : Option Bytes

-- The variables of the plugin with `*error` of the caller, and the programs started so far, those that
-- ask for the version included.
pub record World : Type 0 where
  pub plugin : Plugin
  pub calls : List Call

-- The machine: how a program ends, `zfs version` included, may depend on those that were started before;
-- whether the tools are in the path, for which nothing is run; and its floating point.
pub record Env : Type 1 where
  pub tools : Tools
  pub commands : List Call → Commands
  pub exec_with_input : List Call → List Bytes → Bytes → Result (Unit {0})
  pub stat : Bytes → Option FileKind
  pub real : Real

abbrev pub M : Type 0 → Type 0
M A = World → World × Option A

-- A function that takes only its arguments and `error`.
unfoldable pub checked : {A : Type 0} → Result A → M A
checked (ok a) w = (w, some a)
checked (err e) w = (record w { plugin = record (w.plugin) { error = some e } }, none)

abbrev pub zpool_mask : ℕ
zpool_mask = 1

abbrev pub zfs_mask : ℕ
zfs_mask = 2

abbrev pub both_masks : ℕ
both_masks = 3

-- `if (!check_deps (&avail_deps, mask, deps, DEPS_LAST, &deps_check_lock, error)) return FALSE;`
unfoldable pub need_tools : Env → ℕ → M (Unit {0})
unfolding check_deps
need_tools env mask w =
    let (s, there) =
      check_deps env.tools mask zfs_deps
        (record { avail = w.plugin.avail; error = w.plugin.error }) in
    (record w { plugin = with_state w.plugin s }, if there then some tt else none)

-- `const gchar *argv[] = {"zfs", "version", NULL};`
abbrev pub version_call : Call
version_call = record {
  argv = record { allocated = 3; args = codes "zfs" ∷ codes "version" ∷ [] };
  input = none;
}

abbrev pub version_calls : ℕ → List Call
version_calls zero = []
version_calls (suc n) = version_call ∷ version_calls n

-- What `zfs version` gives when it is run for the next times, which is entered into the log.
abbrev pub answers : Env → List Call → Versions
answers env calls n =
    (env.commands (calls ++ version_calls n)).capture_output version_call.argv.args none

abbrev pub logged_versions : {A : Type 0} → World → Plugin × A → World × A
logged_versions w (s, a) =
    (record w { plugin = record s { asked = 0 }; calls = w.calls ++ version_calls s.asked }, a)

-- A function that asks for the version.
unfoldable pub asking : {A : Type 0} → Env → (Versions → Plugin → Plugin × A) → World → World × A
asking env f w = logged_versions w (f (answers env w.calls) (record (w.plugin) { asked = 0 }))

abbrev pub probed : Versions → Plugin → Plugin × Unit {0}
unfolding probe_runtime_caps
probed versions s = (probe_runtime_caps versions s, tt)

-- `probe_runtime_caps (); if (!ensure_cap (op_name, runtime_caps.…, error)) return FALSE;`
unfoldable pub need_cap : Env → Bytes → (Caps → Bool) → M (Unit {0})
unfolding asking probe_runtime_caps ensure_cap checked
need_cap env op_name cap w =
    let (v, _) = asking env probed w in checked (ensure_cap op_name (cap v.plugin.caps)) v

abbrev pub log : Call → World → World
log c w = record w { calls = w.calls ++ (c ∷ []) }

-- `bd_utils_exec_and_report_error (argv, NULL, error)`
unfoldable pub report : Env → Argv → M (Unit {0})
unfolding checked
report env a w =
    checked ((env.commands w.calls).report_error a.args none)
      (log (record { argv = a; input = none }) w)

-- `bd_utils_exec_and_capture_output (argv, NULL, &output, error)`
unfoldable pub capture : Env → Argv → M Bytes
unfolding checked
capture env a w =
    checked ((env.commands w.calls).capture_output a.args none)
      (log (record { argv = a; input = none }) w)

-- `bd_utils_exec_with_input (argv, input, NULL, error)`
unfoldable pub with_input : Env → Argv → Bytes → M (Unit {0})
unfolding checked
with_input env a input w =
    checked (env.exec_with_input w.calls a.args input)
      (log (record { argv = a; input = some input }) w)

-- `const gchar *argv[n]`
abbrev pub slots_for : ℕ → List Bytes → Argv
slots_for n args = record { allocated = n; args = args }

-- `if (b) argv[next_arg++] = word;`
abbrev pub flag : Bool → Bytes → List Bytes
flag b word = if b then word ∷ [] else []

-- `if (name && !validate_name_not_option (name, …)) return FALSE;`
unfoldable pub check_given : Option Bytes → Bytes → Result (Unit {0})
unfolding validate_name_not_option
check_given none param = ok tt
check_given (some name) param = validate_name_not_option (some name) param
