-- ===== src/Lvm/Safety/Steps.antt =====
-- src/plugins/lvm/lvm.c: the steps of the operations: the check for the tools, a run of `lvm`, an empty answer,
-- and a run under another configuration.
use libblockdev.Base.Bits.{bit, bit-zero}
use libblockdev.Base.{
  ℕ, zero, suc, ◌<◌, Option, none, some, List, [], ◌∷◌, ◌++◌, Bool, true, false, Bytes, length,
  Result, ok, err, GError, ◌≡◌, ◌≢◌, refl, sym, ap, subst, ◌∙◌, ◌↔◌, append-nil, arith, Bool-cases,
  inl, inr, exec_util_check_error,
}
use libblockdev.Deps.{State, check_deps}
use libblockdev.Deps.Programs.{check_deps_error}
use libblockdev.Deps.Codes.{HasCode, check_deps-HasCode}
use libblockdev.Utils.Args.{ExtraArg}
use libblockdev.Utils.Commands.{Argv}
use libblockdev.Lvm.Config.{Globals}
use libblockdev.Lvm.Ops.{
  version_run, checks_from, Call, World, Env, M, proceed, ◌>>=◌, ◌>>◌, checked, passed, need_tools,
  lvm_deps, lvm_call, run_lvm, log, reported, captured, progressed, call_lvm_and_report_error,
  call_lvm_and_capture_output, call_lvm_and_report_progress,
}
use libblockdev.Lvm.Ops.Logical.{lvresize, lvresize_args, fs_option, fs_asked}
use libblockdev.Lvm.Ops.Queries.{forgive, found_nothing, capture_if_any}
use libblockdev.Lvm.Ops.Vdo.{restored, with_config}
use libblockdev.Lvm.Safety.{Outcome, Runs, nothing, >>-Runs, proceed-Outcome}

-- Only the first tool is asked for.
listed : (j : ℕ) → bit j 1 ≡ true → j < length lvm_deps
unfolding bit
listed zero h = omega arith
listed (suc j) h = ground (arith, bit-zero j)

tools_hold :
    (w : World) (asked : List (List Bytes)) (x : State × Bool)
    → (x.1 ≡ false) ↔ (x.0.error ≢ none)
    → Outcome {A = Unit {0}} [] w.globals w.calls
        (record w { avail = x.0.avail; error = x.0.error; checks = asked }, passed x.1)
tools_hold w asked (s, true) h = (sym (append-nil w.calls), refl, settle s.error refl)
  where
    settle : (e : Option GError) → s.error ≡ e → s.error ≡ none
    settle none same = same
    settle (some e) same = absurd (bad (h.1 (λ z. cc)))
      where
        bad : true ≡ false → ⊥
        bad z = cc
tools_hold w asked (s, false) h = (([], [], refl, sym (append-nil w.calls)), refl, h.0 refl)

abbrev deps_state : World → State
deps_state w = record { avail = w.avail; error = w.error }

tools-Runs : (env : Env) → Runs nothing (need_tools env 1)
unfolding need_tools
tools-Runs env = record {
  holds = λ w clean.
      tools_hold w (w.checks ++ checks_from (version_run env.tools) 1 w.avail 0 lvm_deps)
        (check_deps env.tools 1 lvm_deps (deps_state w))
        (check_deps_error env.tools 1 lvm_deps (deps_state w) listed clean);
}

module _ (inner : Argv) (extra : Option (List ExtraArg)) where
  answered :
      {A : Type 0} (w : World) (r : Result A)
      → w.error ≡ none
      → Outcome
          (lvm_call inner extra w.globals ∷ [])
          w.globals
          w.calls
          (checked r (log (lvm_call inner extra w.globals) w))
  unfolding checked
  answered w (ok a) clean = (refl, refl, clean)
  answered w (err e) clean = ((lvm_call inner extra w.globals ∷ [], [], refl, refl), refl, λ h. cc)

  run_lvm-Runs :
      {A : Type 0} (ends : World → Call → Result A)
      → Runs (λ g. lvm_call inner extra g ∷ []) (run_lvm inner extra ends)
  unfolding run_lvm
  run_lvm-Runs ends = record {
    holds = λ w clean. answered w (ends w (lvm_call inner extra w.globals)) clean;
  }

  pub report_error-Runs :
      (env : Env)
      → Runs (λ g. lvm_call inner extra g ∷ []) (call_lvm_and_report_error env inner extra)
  unfolding call_lvm_and_report_error
  report_error-Runs env = >>-Runs (tools-Runs env) (run_lvm-Runs (reported env extra))

  pub capture_output-Runs :
      (env : Env)
      → Runs (λ g. lvm_call inner extra g ∷ []) (call_lvm_and_capture_output env inner extra)
  unfolding call_lvm_and_capture_output
  capture_output-Runs env = >>-Runs (tools-Runs env) (run_lvm-Runs (captured env extra))

  pub report_progress-Runs :
      (env : Env) (prog_extract : Bytes → Option ℕ)
      → Runs
          (λ g. lvm_call inner extra g ∷ [])
          (call_lvm_and_report_progress env inner extra prog_extract)
  unfolding call_lvm_and_report_progress
  report_progress-Runs env prog_extract =
      >>-Runs (tools-Runs env) (run_lvm-Runs (progressed env extra prog_extract))

-- `lvresize` asks for the version first.
pub lvresize-Runs :
    (env : Env) (vg_name lv_name : Bytes) (size : ℕ) (extra : Option (List ExtraArg))
    → Runs
        (λ g. lvm_call (lvresize_args (fs_option env) vg_name lv_name size) extra g ∷ [])
        (lvresize env vg_name lv_name size extra)
unfolding lvresize
lvresize-Runs env vg_name lv_name size extra = record {
  holds = λ w clean.
      (report_error-Runs (lvresize_args (fs_option env) vg_name lv_name size) extra env).holds
        (fs_asked env w) clean;
}

-- The error of a tool that is missing is not the one of a program without output.
coded_nothing : (e : Option GError) → HasCode exec_util_check_error e → found_nothing e ≡ false
coded_nothing none h = refl
coded_nothing (some e) h = rw h refl

-- An answer to a run: the error may be cleared.
forgive_answer :
    (w : World) (c : Call) (r : Result Bytes)
    → w.error ≡ none
    → Outcome (c ∷ []) w.globals w.calls (forgive (checked r (log c w)))
unfolding forgive checked
forgive_answer w c (ok output) clean = (refl, refl, clean)
forgive_answer w c (err e) clean = elim (Bool-cases (found_nothing (some e))) [
  | inl empty ↦ rw empty (refl, refl, refl)
  | inr other ↦ rw other ((c ∷ [], [], refl, refl), refl, λ h. cc)
]

not_forgiven : (w : World) → found_nothing w.error ≡ false → forgive (w, none) ≡ (w, none)
unfolding forgive
not_forgiven w h = rw h refl

-- Where the tools are missing, there is nothing to forgive.
forgive_later :
    (plan : List Call) (g : Globals) (calls : List Call) (next : Unit {0} → M Bytes)
    (x : World × Option (Unit {0}))
    → HasCode exec_util_check_error x.0.error
    → Outcome plan g calls (proceed (λ u v. forgive (next u v)) x)
    → Outcome plan g calls (forgive (proceed next x))
unfolding forgive
forgive_later plan g calls next (w, none) h o =
    subst (Outcome plan g calls) (sym (not_forgiven w (coded_nothing w.error h))) o
forgive_later plan g calls next (w, some u) h o = o

error_coded : (e : Option GError) → e ≡ none → HasCode exec_util_check_error e
error_coded none h = tt
error_coded (some e) h = cc

tools_coded :
    (env : Env) (w : World)
    → w.error ≡ none
    → HasCode exec_util_check_error (need_tools env 1 w).0.error
unfolding need_tools
tools_coded env w clean =
    check_deps-HasCode env.tools 1 lvm_deps (deps_state w) (error_coded w.error clean)

pub capture_if_any-Runs :
    (env : Env) (inner : Argv) → Runs (λ g. lvm_call inner none g ∷ []) (capture_if_any env inner)
unfolding capture_if_any call_lvm_and_capture_output ◌>>◌ ◌>>=◌ run_lvm
capture_if_any-Runs env inner = record {
  holds = λ w clean.
      forgive_later (lvm_call inner none w.globals ∷ []) w.globals w.calls
        (λ _. run_lvm inner none (captured env none)) (need_tools env 1 w) (tools_coded env w clean)
        (proceed-Outcome nothing (λ g. lvm_call inner none g ∷ []) w.globals w.calls
          (λ _ v. forgive (run_lvm inner none (captured env none) v)) (need_tools env 1 w)
          ((tools-Runs env).holds w clean)
          (λ u. record {
            holds = λ v fine.
                forgive_answer v (lvm_call inner none v.globals)
                  (captured env none v (lvm_call inner none v.globals)) fine;
          }));
}

abbrev with_str : Option Bytes → Globals → Globals
with_str c g = record g { config_str = c }

restored-Outcome :
    {A : Type 0} (plan : List Call) (g g' : Globals) (calls : List Call) (x : World × Option A)
    → record g' { config_str = g.config_str } ≡ g
    → Outcome plan g' calls x
    → Outcome plan g calls (restored g.config_str x)
restored-Outcome plan g g' calls (w, some a) back (ran, kept, clean) =
    (ran, ap (with_str g.config_str) kept ∙ back, clean)
restored-Outcome plan g g' calls (w, none) back (begun, kept, bad) =
    (begun, ap (with_str g.config_str) kept ∙ back, bad)

pub with_config-Runs :
    {A : Type 0} {p : Globals → List Call} {m : M A} (change : Globals → Globals)
    → ((g : Globals) → record (change g) { config_str = g.config_str } ≡ g)
    → Runs p m
    → Runs (λ g. p (change g)) (with_config change m)
unfolding with_config
with_config-Runs {p} {m} change back r = record {
  holds = λ w clean.
      restored-Outcome (p (change w.globals)) w.globals (change w.globals) w.calls
        (m (record w { globals = change w.globals })) (back w.globals)
        (r.holds (record w { globals = change w.globals }) clean);
}
