-- ===== src/Deps.antt =====
-- src/plugins/check_deps.c: the run-time dependencies of a plugin (programs, kernel modules, D-Bus
-- services, features of programs) as bits of a mask that caches what was found. The four checks
-- have one shape; what probes a single dependency is an argument.
pub mod Codes
pub mod Loop
pub mod Errors
pub mod Threads
pub mod Programs
pub mod Tests
use libblockdev.Base.{
  ℕ, suc, ◌+◌, ◌^◌, Option, none, some, List, [], ◌∷◌, ◌++◌, Bool, true, false, not, ◌&&◌, ◌||◌,
  Bytes, is_empty, if◌then◌else◌, ◌==◌, Result, ok, err, GError, Code, exec_util_check_error,
  module_check_error, exec_util_feature_check_error, exec_util_unavailable, exec_noout, exec_failed,
  fail, codes, prefix_error, strstrip, has_prefix, ◌>>=◌,
}
use Prim.Native.Nat.{bit_and, bit_or}
use mathlib.Core.Option
use libblockdev.Utils.Version.{
  Tools, UtilDep, check_util_version, RegexMatch, bad_pattern, no_match, matched, version_output,
  version_cmp, Cmp, lower, same, higher, is_noout, is_exec_failed,
}

-- What the check of one dependency finds: it is there; or it is not, with the message that goes into
-- the error, if there is one.
pub data Outcome : Type 0 where
  found : Outcome
  missing : Option Bytes → Outcome

-- The mask of what is available, and `*error`.
pub record State : Type 0 where
  pub avail : ℕ
  pub error : Option GError

-- `if (*error) g_prefix_error (error, "%s\n", message); else g_set_error (error, …, "%s", message);`
pub note_missing : Code → Bytes → Option GError → Option GError
note_missing c m none = some (record { code = c; message = m })
note_missing c m (some e) = some (prefix_error (m ++ codes "\n") e)

-- What the loop does with the result for dependency `i`.
pub record_outcome : Code → ℕ → Outcome → State → State
unfolding note_missing
record_outcome c i found s = record s { avail = bit_or s.avail (2 ^ i) }
record_outcome c i (missing none) s = s
record_outcome c i (missing (some m)) s = record s { error = note_missing c m s.error }

-- `((1 << i) & req_deps) && !((1 << i) & val)`
pub wanted : ℕ → ℕ → ℕ → Bool
wanted i req val = not (bit_and (2 ^ i) req == 0) && bit_and (2 ^ i) val == 0

-- The loop from dependency `i` on; `val` is the mask read under the lock.
pub check_loop {ℓ} : {D : Type ℓ} → Code → (D → Outcome) → ℕ → ℕ → ℕ → List D → State → State
unfolding wanted record_outcome
check_loop c attempt req val i [] s = s
check_loop c attempt req val i (d ∷ ds) s =
    check_loop c attempt req val (suc i) ds
      (if wanted i req val then record_outcome c i (attempt d) s else s)

-- `(val & req_deps) == req_deps`
abbrev pub has_all : ℕ → ℕ → Bool
has_all val req = bit_and val req == req

-- One call, with nothing else writing the mask meanwhile.
unfoldable pub check_all {ℓ} :
    {D : Type ℓ} → Code → (D → Outcome) → ℕ → List D → State → State × Bool
unfolding check_loop
check_all c attempt req ds s =
    let s' = check_loop c attempt req s.avail 0 ds s in
    if has_all s.avail req then (s, true) else (s', has_all s'.avail req)

-- The failure of a probe that always sets its error.
abbrev pub outcome_of : Result (Unit {0}) → Outcome
outcome_of (ok u) = found
outcome_of (err e) = missing (some e.message)

unfoldable pub check_deps : Tools → ℕ → List UtilDep → State → State × Bool
unfolding check_all
check_deps tools = check_all exec_util_check_error (λ d. outcome_of (check_util_version tools d))

-- The answer of a probe that may say "no" without an error: the message is then made up here.
abbrev pub answer : Bytes → Result Bool → Outcome
answer m (ok true) = found
answer m (ok false) = missing (some m)
answer m (err e) = missing (some e.message)

-- `bd_utils_have_kernel_module` is an argument.
unfoldable pub check_module_deps : (Bytes → Result Bool) → ℕ → List Bytes → State → State × Bool
unfolding check_all
check_module_deps have_module =
    check_all module_check_error (λ name.
      answer (codes "Kernel module '" ++ name ++ codes "' not available") (have_module name))

pub record DbusDep : Type 0 where
  pub bus_name : Bytes
  pub version : Option Bytes

-- The bus is an argument: whether a service is there, and the version property of its object.
pub record Bus : Type 0 where
  pub service_available : Bytes → Result Bool
  pub version_property : DbusDep → Result Bytes

at_least : Result Cmp → Result Bool
at_least (ok lower) = ok false
at_least (ok same) = ok true
at_least (ok higher) = ok true
at_least (err e) = err e

unfoldable pub check_dbus_api_version : Bus → DbusDep → Bytes → Result Bool
unfolding version_cmp at_least
check_dbus_api_version bus dep version =
    bus.version_property dep >>= λ v. at_least (version_cmp v version)

unfoldable pub dbus_outcome : Bus → DbusDep → Result Bool → Option Bytes → Outcome
unfolding check_dbus_api_version
dbus_outcome bus dep (ok true) none = found
dbus_outcome bus dep (ok true) (some version) =
    answer
      (codes "DBus service '"
        ++ dep.bus_name
        ++ codes "' not available in version '"
        ++ version
        ++ codes "'")
      (check_dbus_api_version bus dep version)
dbus_outcome bus dep r v =
    answer (codes "DBus service '" ++ dep.bus_name ++ codes "' not available") r

unfoldable pub check_dbus_deps : Bus → ℕ → List DbusDep → State → State × Bool
unfolding check_all dbus_outcome
check_dbus_deps bus =
    check_all module_check_error
      (λ d. dbus_outcome bus d (bus.service_available d.bus_name) d.version)

pub record FeatureDep : Type 0 where
  pub util_name : Bytes
  pub feature : Bytes
  pub feature_arg : Bytes
  pub feature_regexp : Option Bytes

-- `strstr (text, part)` (also `g_strrstr`, as a test).
pub contains : Bytes → Bytes → Bool
contains [] part = has_prefix [] part
contains (c ∷ s) part = has_prefix (c ∷ s) part || contains s part

features_unknown : Bytes → Bytes → Outcome
features_unknown util out =
    missing (some (codes "Failed to determine " ++ util ++ codes "'s features from: " ++ out))

feature_in : FeatureDep → Bytes → Option Bytes → Outcome
unfolding features_unknown contains
feature_in d out none = features_unknown d.util_name out
feature_in d out (some features) =
    if is_empty features
    then features_unknown d.util_name out
    else if not (contains features d.feature)
    then missing (
        some (
          codes "Required feature "
          ++ d.feature
          ++ codes " not supported by this version of "
          ++ d.util_name))
    else found

feature_match : FeatureDep → Bytes → RegexMatch → Outcome
unfolding feature_in
feature_match d out (bad_pattern e) = missing (some e.message)
feature_match d out no_match = features_unknown d.util_name out
feature_match d out (matched g) = feature_in d out g

-- `_check_util_feature`, and the error that it leaves. Where the program could not be run at all, it
-- returns FALSE and leaves `*error` alone.
unfoldable pub check_util_feature : Tools → FeatureDep → Outcome
unfolding feature_match feature_in features_unknown version_output
check_util_feature tools d =
    let ran : Outcome =
      elim (version_output (tools.capture_output (d.util_name ∷ d.feature_arg ∷ []))) [
        | none ↦ missing none
        | some out ↦ elim d.feature_regexp [
          | none ↦ feature_in d out (some (strstrip out))
          | some re ↦ feature_match d out (tools.regex re out)
        ]
      ] in
    if not (tools.find_program d.util_name)
    then missing (some (codes "The '" ++ d.util_name ++ codes "' utility is not available"))
    else ran

unfoldable pub check_features : Tools → ℕ → List FeatureDep → State → State × Bool
unfolding check_all check_util_feature
check_features tools = check_all exec_util_feature_check_error (check_util_feature tools)
