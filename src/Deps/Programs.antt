-- ===== src/Deps/Programs.antt =====
-- The four checks themselves: programs, kernel modules, D-Bus services, features.
use libblockdev.Base.Bits.{bit, has_mask_iff}
use libblockdev.Base.{
  ℕ, ◌<◌, Option, none, some, List, [], ◌∷◌, Bool, true, false, ◌≡◌, ◌≢◌, ◌↔◌, refl, sym, ◌∙◌, ◌⊎◌,
  Bytes, Result, ok, err, GError, length, exec_util_check_error,
}
use libblockdev.Deps.Errors.{check_all_error, check_all_idle}
use libblockdev.Deps.Loop.{found_from, check_all_iff, check_all_result}
use libblockdev.Base.{All, suc, Bool-cases, inl, inr, exec_util_feature_check_error}
use libblockdev.Deps.{check_loop, wanted, record_outcome}
use libblockdev.Deps.{
  missing, State, has_all, check_all, outcome_of, answer, check_deps, check_module_deps,
  check_features, FeatureDep, check_util_feature, DbusDep, Bus, dbus_outcome, check_dbus_deps,
}
use libblockdev.Utils.Version.{Tools, UtilDep, check_util_version, is_noout, is_exec_failed}

outcome_of-ne : (r : Result (Unit {0})) → outcome_of r ≢ missing none
outcome_of-ne (ok u) = λ e. cc
outcome_of-ne (err e) = λ e. cc

answer-ne : (m : Bytes) (r : Result Bool) → answer m r ≢ missing none
answer-ne m (ok true) = λ e. cc
answer-ne m (ok false) = λ e. cc
answer-ne m (err e) = λ e. cc

dbus_outcome-ne :
    (bus : Bus) (d : DbusDep) (r : Result Bool) (v : Option Bytes)
    → dbus_outcome bus d r v ≢ missing none
unfolding dbus_outcome
dbus_outcome-ne bus d (ok true) none = λ e. cc
dbus_outcome-ne bus d (ok true) (some v) = answer-ne _ _
dbus_outcome-ne bus d (ok false) none = λ e. cc
dbus_outcome-ne bus d (ok false) (some v) = λ e. cc
dbus_outcome-ne bus d (err x) none = λ e. cc
dbus_outcome-ne bus d (err x) (some v) = λ e. cc

-- Programs: with every required one in the table and no error set before the call, `check_deps` sets
-- an error exactly if it fails.
pub check_deps_error :
    (tools : Tools) (req : ℕ) (ds : List UtilDep) (s : State)
    → ((j : ℕ) → bit j req ≡ true → j < length ds)
    → s.error ≡ none
    → ((check_deps tools req ds s).1 ≡ false) ↔ ((check_deps tools req ds s).0.error ≢ none)
unfolding check_deps
check_deps_error tools req ds s =
    check_all_error _ (λ d. outcome_of (check_util_version tools d)) req ds s
      (λ d. outcome_of-ne (check_util_version tools d))

-- Kernel modules: with every required one in the table and no error set before the call,
-- `check_module_deps` sets an error exactly if it fails.
pub check_module_deps_error :
    (have_module : Bytes → Result Bool) (req : ℕ) (ds : List Bytes) (s : State)
    → ((j : ℕ) → bit j req ≡ true → j < length ds)
    → s.error ≡ none
    → ((check_module_deps have_module req ds s).1 ≡ false)
      ↔ ((check_module_deps have_module req ds s).0.error ≢ none)
unfolding check_module_deps
check_module_deps_error have_module req ds s =
    check_all_error _ _ req ds s (λ d. answer-ne _ (have_module d))

-- D-Bus services: with every required one in the table and no error set before the call,
-- `check_dbus_deps` sets an error exactly if it fails.
pub check_dbus_deps_error :
    (bus : Bus) (req : ℕ) (ds : List DbusDep) (s : State)
    → ((j : ℕ) → bit j req ≡ true → j < length ds)
    → s.error ≡ none
    → ((check_dbus_deps bus req ds s).1 ≡ false) ↔ ((check_dbus_deps bus req ds s).0.error ≢ none)
unfolding check_dbus_deps
check_dbus_deps_error bus req ds s =
    check_all_error _ _ req ds s
      (λ d. dbus_outcome-ne bus d (bus.service_available d.bus_name) d.version)

-- `check_deps` succeeds exactly if each required program was found by an earlier call, or stands in
-- the table at its bit and passes the check of its version.
pub check_deps_iff :
    (tools : Tools) (req : ℕ) (ds : List UtilDep) (s : State)
    → ((check_deps tools req ds s).1 ≡ true) ↔ (
        (j : ℕ)
        → bit j req ≡ true
        → (bit j s.avail ≡ true)
          ⊎ (found_from (λ d. outcome_of (check_util_version tools d)) 0 ds j ≡ true))
unfolding check_deps
check_deps_iff tools req ds s =
    check_all_iff _ (λ d. outcome_of (check_util_version tools d)) req ds s

feature_not_run :
    (tools : Tools) (d : FeatureDep) (e : GError)
    → tools.find_program d.util_name ≡ true
    → tools.capture_output (d.util_name ∷ d.feature_arg ∷ []) ≡ err e
    → is_noout e.code ≡ false
    → is_exec_failed e.code ≡ false
    → check_util_feature tools d ≡ missing none
unfolding check_util_feature
feature_not_run tools d e f c n x = rw (f, c, n, x, check_util_feature) refl

-- The program of a feature is in the path, but cannot be run: there is neither output nor an exit code.
abbrev pub CannotRun : Tools → FeatureDep → Type 0
CannotRun tools d =
    (tools.find_program d.util_name ≡ true)
    × ((e : GError) × (tools.capture_output (d.util_name ∷ d.feature_arg ∷ []) ≡ err e)
        × (is_noout e.code ≡ false)
        × (is_exec_failed e.code ≡ false))

silent_loop :
    (tools : Tools) (req val i : ℕ) (ds : List FeatureDep) (s : State)
    → All (CannotRun tools) ds
    → check_loop exec_util_feature_check_error (check_util_feature tools) req val i ds s ≡ s
unfolding check_loop record_outcome
silent_loop tools req val i [] s h = refl
silent_loop tools req val i (d ∷ ds) s ((f, (e, c, n, x)), rest) =
    elim (Bool-cases (wanted i req val)) [
      | inl asked ↦
          rw (asked, feature_not_run tools d e f c n x)
            (silent_loop tools req val (suc i) ds s rest)
      | inr known ↦ rw known (silent_loop tools req val (suc i) ds s rest)
    ]

-- Whatever features are asked for and whatever is known already: where not all of them are known, and
-- the program of each feature in the table is in the path but cannot be run, so that there is neither
-- output nor an exit code, `check_features` fails and leaves the error as it was: none, if there was
-- none.
pub check_features_silent :
    (tools : Tools) (req : ℕ) (ds : List FeatureDep) (s : State)
    → has_all s.avail req ≡ false
    → All (CannotRun tools) ds
    → check_features tools req ds s ≡ (s, false)
unfolding check_features check_all
check_features_silent tools req ds s unknown h =
    rw (silent_loop tools req s.avail 0 ds s h, unknown) refl

-- Where all that is required is in the mask, nothing is probed.
pub check_deps_idle :
    (tools : Tools) (req : ℕ) (ds : List UtilDep) (s : State)
    → has_all s.avail req ≡ true
    → check_deps tools req ds s ≡ (s, true)
unfolding check_deps
check_deps_idle tools req ds s =
    check_all_idle exec_util_check_error (λ d. outcome_of (check_util_version tools d)) req ds s

-- Once a call has succeeded, every later call of `check_deps` that requires no more than it did succeeds
-- and changes nothing, whatever the programs would answer then.
check_deps_cached :
    (tools later : Tools) (req less : ℕ) (ds : List UtilDep) (s : State)
    → (check_deps tools req ds s).1 ≡ true
    → ((j : ℕ) → bit j less ≡ true → bit j req ≡ true)
    → check_deps later less ds (check_deps tools req ds s).0 ≡ ((check_deps tools req ds s).0, true)
unfolding check_deps
check_deps_cached tools later req less ds s h sub =
    let probe = λ (d : UtilDep). outcome_of (check_util_version tools d) in
    let all : has_all (check_all exec_util_check_error probe req ds s).0.avail req ≡ true =
      sym (check_all_result exec_util_check_error probe req ds s) ∙ h in
    let all_less : has_all (check_all exec_util_check_error probe req ds s).0.avail less ≡ true =
      (has_mask_iff (check_all exec_util_check_error probe req ds s).0.avail less).1 λ j b.
        (has_mask_iff (check_all exec_util_check_error probe req ds s).0.avail req).0 all j
          (sub j b) in
    check_all_idle exec_util_check_error (λ d. outcome_of (check_util_version later d)) less ds
      (check_all exec_util_check_error probe req ds s).0 all_less
