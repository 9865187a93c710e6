-- ===== src/Lvm/Safety/Completes.antt =====
-- src/plugins/lvm/lvm.c: operations that succeed where the tools are there and every run of `lvm` ends well.
pub mod Composed
use libblockdev.Base.{
  ℕ, Option, none, some, List, Bool, true, Bytes, Result, ok, ◌≡◌, refl, sym, subst,
}
use libblockdev.Deps.{has_all}
use libblockdev.Deps.Programs.{check_deps_idle}
use libblockdev.Utils.Args.{ExtraArg}
use libblockdev.Utils.Commands.{Argv}
use libblockdev.Lvm.Config.{Globals}
use libblockdev.Lvm.Ops.{
  Call, World, Env, M, proceed, ◌>>=◌, ◌>>◌, pure, checked, prefixed, with_prefix, need_tools,
  lvm_deps, lvm_call, run_lvm, log, reported, progressed, call_lvm_and_report_error,
  call_lvm_and_report_progress,
}
use libblockdev.Lvm.Ops.Logical.{lvresize, lvresize_args, fs_option, fs_asked}
use libblockdev.Lvm.Ops.Vdo.{restored, with_config}

-- An earlier call has found `lvm`.
abbrev pub Known : World → Type 0
Known w = has_all w.avail 1 ≡ true

-- Every run ends well, after whatever was run before.
pub record EndsWell (env : Env) : Type 0 where
  pub reports :
      (before : List Call) (args : List Bytes) (extra : Option (List ExtraArg))
      → (env.commands before).report_error args extra ≡ ok tt
  pub progresses :
      (before : List Call) (args : List Bytes) (extra : Option (List ExtraArg))
      (prog_extract : Bytes → Option ℕ)
      → env.report_progress before args extra prog_extract ≡ ok tt

abbrev pub Done : {A : Type 0} → World × Option A → Type 0
Done (w, some a) = Known w
Done (w, none) = ⊥

pub record Completes {A : Type 0} (m : M A) : Type 0 where
  pub holds : (w : World) → Known w → Done (m w)

proceed-Done :
    {A B : Type 0} (next : A → M B) (x : World × Option A)
    → Done x
    → ((a : A) → Completes (next a))
    → Done (proceed next x)
proceed-Done next (w, some a) known k = (k a).holds w known
proceed-Done next (w, none) h k = h

pub >>=-Completes :
    {A B : Type 0} {m : M A} {next : A → M B}
    → Completes m
    → ((a : A) → Completes (next a))
    → Completes (m >>= next)
unfolding ◌>>=◌
>>=-Completes {m} {next} c k = record {
  holds = λ w known. proceed-Done next (m w) (c.holds w known) k;
}

pub >>-Completes :
    {B : Type 0} {m : M (Unit {0})} {rest : M B}
    → Completes m
    → Completes rest
    → Completes (m >> rest)
unfolding ◌>>◌
>>-Completes c k = >>=-Completes c (λ _. k)

pub pure-Completes : {A : Type 0} (a : A) → Completes (pure a)
unfolding pure
pure-Completes a = record { holds = λ w known. known }

-- A check that lets what it checks pass.
pub checked-Completes : {A : Type 0} (r : Result A) {a : A} → r ≡ ok a → Completes (checked r)
unfolding checked
checked-Completes r same = record {
  holds = λ w known. subst (λ q. Done (checked q w)) (sym same) known;
}

with_prefix-Done :
    {A : Type 0} (text : Bytes) (x : World × Option A) → Done x → Done (with_prefix text x)
with_prefix-Done text (w, some a) known = known
with_prefix-Done text (w, none) h = h

pub prefixed-Completes :
    {A : Type 0} {m : M A} (text : Bytes) → Completes m → Completes (prefixed text m)
unfolding prefixed
prefixed-Completes {m} text c = record {
  holds = λ w known. with_prefix-Done text (m w) (c.holds w known);
}

restored-Done :
    {A : Type 0} (old_config : Option Bytes) (x : World × Option A)
    → Done x
    → Done (restored old_config x)
restored-Done old_config (w, some a) known = known
restored-Done old_config (w, none) h = h

pub with_config-Completes :
    {A : Type 0} {m : M A} (change : Globals → Globals)
    → Completes m
    → Completes (with_config change m)
unfolding with_config
with_config-Completes {m} change c = record {
  holds = λ w known.
      restored-Done w.globals.config_str (m (record w { globals = change w.globals }))
        (c.holds (record w { globals = change w.globals }) known);
}

tools-Completes : (env : Env) → Completes (need_tools env 1)
unfolding need_tools
tools-Completes env = record {
  holds = λ w known.
      rw (check_deps_idle env.tools 1 lvm_deps (record { avail = w.avail; error = w.error }) known)
        known;
}

module _ (env : Env) (well : EndsWell env) (inner : Argv) (extra : Option (List ExtraArg)) where
  run_lvm-Completes :
      {A : Type 0} (ends : World → Call → Result A) (a : A)
      → ((w : World) (c : Call) → ends w c ≡ ok a)
      → Completes (run_lvm inner extra ends)
  unfolding run_lvm checked
  run_lvm-Completes ends a h = record {
    holds = λ w known.
        subst (λ q. Done (checked q (log (lvm_call inner extra w.globals) w)))
          (sym (h w (lvm_call inner extra w.globals))) known;
  }

  pub report_error-Completes : Completes (call_lvm_and_report_error env inner extra)
  unfolding call_lvm_and_report_error
  report_error-Completes =
      >>-Completes (tools-Completes env)
        (run_lvm-Completes (reported env extra) tt (λ w c. well.reports w.calls c.argv.args extra))

  pub report_progress-Completes :
      (prog_extract : Bytes → Option ℕ)
      → Completes (call_lvm_and_report_progress env inner extra prog_extract)
  unfolding call_lvm_and_report_progress
  report_progress-Completes prog_extract = >>-Completes (tools-Completes env) (
      run_lvm-Completes (progressed env extra prog_extract) tt
        (λ w c. well.progresses w.calls c.argv.args extra prog_extract))

-- `lvresize` asks for the version first.
pub lvresize-Completes :
    (env : Env)
    → EndsWell env
    → (vg_name lv_name : Bytes) (size : ℕ) (extra : Option (List ExtraArg))
    → Completes (lvresize env vg_name lv_name size extra)
unfolding lvresize
lvresize-Completes env well vg_name lv_name size extra = record {
  holds = λ w known.
      (report_error-Completes env well (lvresize_args (fs_option env) vg_name lv_name size)
          extra).holds
        (fs_asked env w) known;
}
