-- ===== src/Zfs/Safety/Steps.antt =====
-- The steps of the operations: the guards that they begin with, and the program that they run.
use libblockdev.Base.Bits.{bit, bit-zero}
use libblockdev.Base.{
  ℕ, ◌+◌, ◌≤◌, zero, suc, ◌/◌, ◌<◌, Option, none, some, List, [], ◌∷◌, ◌++◌, Bool, true, false,
  Bytes, if◌then◌else◌, length, Result, ok, err, GError, ◌≡◌, ◌≢◌, refl, ◌∙◌, ap, arith, All, inl,
  inr, ◌↔◌,
}
use libblockdev.Deps.{State, check_deps}
use libblockdev.Deps.Programs.{check_deps_error}
use libblockdev.Zfs.Version.{Plugin, Versions, Caps}
use libblockdev.Zfs.Names.{NotOption, validate_name_not_option-NotOption}
use libblockdev.Zfs.Caps.{probe_runtime_caps, zfs_deps, with_state}
use libblockdev.Zfs.Caps.Late.{probe_runtime_caps-le}
use libblockdev.Zfs.Caps.Probed.{probe_runtime_caps-IsConsistent}
use libblockdev.Zfs.Pool.{Argv, optional, check_name}
use libblockdev.Zfs.Ops.{
  Call, World, Env, M, ◌>>=◌, ◌>>◌, checked, need_tools, need_cap, report, capture, with_input,
  check_given, asking, probed, answers, both_masks, zfs_mask, zpool_mask,
}
use libblockdev.Zfs.Safety.Rules.{
  Anything, Passed, Checks, OneMore, Ended, Runs, RunsUpTo, >>=-Runs, >>-Runs, checked_keeps,
  checked-Checks, named-Checks, Quiet, Asked, Asks, quiet, question-Runs,
}

-- The masks of the tools have two bits.
listed : (mask : ℕ) → mask < 4 → (j : ℕ) → bit j mask ≡ true → j < length zfs_deps
unfolding bit
listed mask small zero h = omega arith
listed mask small (suc zero) h = omega arith
listed mask small (suc (suc j)) h =
    let none_left : mask / 2 / 2 ≡ 0 = omega arith in
    ground (arith, bit-zero j, ap (bit j) none_left)

tools_hold :
    (mask : ℕ) (w : World) (x : State × Bool)
    → (x.1 ≡ false) ↔ (x.0.error ≢ none)
    → Passed {A = Unit {0}} Anything w.calls
        (record w { plugin = with_state w.plugin x.0 }, if x.1 then some tt else none)
tools_hold mask w (s, true) h = (refl, settle s.error refl, tt)
  where
    settle : (e : Option GError) → s.error ≡ e → s.error ≡ none
    settle none same = same
    settle (some e) same = absurd (bad (h.1 (λ z. cc)))
      where
        bad : true ≡ false → ⊥
        bad z = cc
tools_hold mask w (s, false) h = (refl, h.0 refl)

pub tools-Checks :
    (env : Env) (mask : ℕ) → mask < 4 → Checks {A = Unit {0}} Anything (need_tools env mask)
unfolding need_tools
tools-Checks env mask small = record {
  holds = λ w clean.
      tools_hold mask w
        (check_deps env.tools mask zfs_deps
          (record { avail = w.plugin.avail; error = w.plugin.error }))
        (check_deps_error env.tools mask zfs_deps
          (record { avail = w.plugin.avail; error = w.plugin.error }) (listed mask small) clean);
  keeps = λ w clean s. s;
}

probe_keeps_error :
    (versions : Versions) (s : Plugin) → (probe_runtime_caps versions s).error ≡ s.error
unfolding probe_runtime_caps
probe_keeps_error versions s = keeps s.caps.probed _ refl
  where
    keeps : (b : Bool) (t : Plugin) → t.error ≡ s.error → (if b then s else t).error ≡ s.error
    keeps true t h = refl
    keeps false t h = h

checked-Asked :
    {A : Type 0} (r : Result A) (calls : List Call) (w : World)
    → Quiet 2 calls w
    → w.plugin.error ≡ none
    → Asked calls (checked r w)
unfolding checked
checked-Asked (ok a) calls w q clean = (q, clean)
checked-Asked (err e) calls w q clean = (q, λ h. cc)

-- What is asked before the question.
abbrev pub unasked : Plugin → Plugin
unasked s = record s { asked = 0 }

twice : {n : ℕ} → n ≤ 0 + 2 → n ≤ 2
twice h = omega arith

pub cap-Asks :
    (env : Env) (op_name : Bytes) (cap : Caps → Bool)
    → Asks {A = Unit {0}} (need_cap env op_name cap)
unfolding need_cap asking
cap-Asks env op_name cap = record {
  holds = λ w clean.
      checked-Asked _ w.calls (asking env probed w).0
        (
          (probe_runtime_caps (answers env w.calls) (unasked w.plugin)).asked,
          twice (probe_runtime_caps-le (answers env w.calls) (unasked w.plugin)),
          refl,
        )
        (probe_keeps_error (answers env w.calls) (unasked w.plugin) ∙ clean);
  keeps = λ w clean s.
      checked_keeps _ (asking env probed w).0
        (probe_runtime_caps-IsConsistent (answers env w.calls) (unasked w.plugin) s).0;
}

-- Whatever a program that is run answers, the array is in the log.
answered :
    {A : Type 0} (k : ℕ) (P : Argv → Type 0) (r : Result A) (calls : List Call) (c : Call)
    (w : World)
    → P c.argv
    → w.calls ≡ calls ++ (c ∷ [])
    → w.plugin.error ≡ none
    → Ended k P calls (checked r w)
unfolding checked
answered k P (ok a) calls c w p logged clean = ((0, omega arith, c, p, logged), clean)
answered k P (err e) calls c w p logged clean = (inr (0, omega arith, c, p, logged), λ h. cc)

checked-OneMore :
    {A : Type 0} (k : ℕ) (P : Argv → Type 0) (r : Result A) (calls : List Call) (w : World)
    → OneMore k P calls w
    → OneMore k P calls (checked r w).0
unfolding checked
checked-OneMore k P (ok a) calls w run = run
checked-OneMore k P (err e) calls w run = run

pub capture-OneMore :
    (k : ℕ) (P : Argv → Type 0) (env : Env) (a : Argv) (w : World)
    → P a
    → OneMore k P w.calls (capture env a w).0
unfolding capture
capture-OneMore k P env a w p = checked-OneMore k P _ w.calls _ (0, omega arith, _, p, refl)

-- Late checks that refuse end the operation as well.
pub refused-Runs :
    {A : Type 0} {k : ℕ} {P : Argv → Type 0} (e : GError) → RunsUpTo {A = A} k P (checked (err e))
unfolding checked
refused-Runs {k} e = record {
  holds = λ w clean. (inl (quiet k w.calls w refl), λ h. cc);
  keeps = λ w clean s. s;
}

module _ {k : ℕ} {P : Argv → Type 0} where
  pub report-Runs : (env : Env) (a : Argv) → P a → RunsUpTo k P (report env a)
  unfolding report
  report-Runs env a p = record {
    holds = λ w clean. answered k P _ w.calls _ _ p refl clean;
    keeps = λ w clean s. checked_keeps _ _ s;
  }

  pub capture-Runs : (env : Env) (a : Argv) → P a → RunsUpTo k P (capture env a)
  unfolding capture
  capture-Runs env a p = record {
    holds = λ w clean. answered k P _ w.calls _ _ p refl clean;
    keeps = λ w clean s. checked_keeps _ _ s;
  }

  pub with_input-Runs :
      (env : Env) (a : Argv) (input : Bytes) → P a → RunsUpTo k P (with_input env a input)
  unfolding with_input
  with_input-Runs env a input p = record {
    holds = λ w clean. answered k P _ w.calls _ _ p refl clean;
    keeps = λ w clean s. checked_keeps _ _ s;
  }

given_All :
    (name : Option Bytes) (param : Bytes) {u : Unit {0}}
    → check_given name param ≡ ok u
    → All NotOption (optional name)
unfolding check_given
given_All none param h = tt
given_All (some n) param h = (validate_name_not_option-NotOption n param h, tt)

-- The checks that the operations begin with.
module _ {B : Type 0} {k : ℕ} {P : Argv → Type 0} where
  pub named :
      (name : Option Bytes) (param : Bytes) {next : Bytes → M B}
      → ((n : Bytes) → NotOption n → RunsUpTo k P (next n))
      → RunsUpTo k P (checked (check_name name param) >>= next)
  named name param = >>=-Runs (named-Checks name param)

  pub perhaps_named :
      (name : Option Bytes) (param : Bytes) {rest : M B}
      → (All NotOption (optional name) → RunsUpTo k P rest)
      → RunsUpTo k P (checked (check_given name param) >> rest)
  perhaps_named name param next =
      >>-Runs (λ _. All NotOption (optional name)) (checked-Checks (λ n h. given_All name param h))
        (λ _ h. next h)

  with_tools :
      (env : Env) (mask : ℕ) {rest : M B}
      → mask < 4
      → RunsUpTo k P rest
      → RunsUpTo k P (need_tools env mask >> rest)
  with_tools env mask small next = >>-Runs _ (tools-Checks env mask small) (λ _ _. next)

  pub with_both :
      (env : Env) {rest : M B}
      → RunsUpTo k P rest
      → RunsUpTo k P (need_tools env both_masks >> rest)
  with_both env next = with_tools env both_masks (omega arith) next

  pub with_zfs :
      (env : Env) {rest : M B} → RunsUpTo k P rest → RunsUpTo k P (need_tools env zfs_mask >> rest)
  with_zfs env next = with_tools env zfs_mask (omega arith) next

  pub with_zpool :
      (env : Env) {rest : M B}
      → RunsUpTo k P rest
      → RunsUpTo k P (need_tools env zpool_mask >> rest)
  with_zpool env next = with_tools env zpool_mask (omega arith) next

pub with_cap :
    {B : Type 0} {P : Argv → Type 0} (env : Env) (op_name : Bytes) (cap : Caps → Bool) {rest : M B}
    → RunsUpTo 0 P rest
    → Runs P (need_cap env op_name cap >> rest)
unfolding ◌>>◌
with_cap env op_name cap next = question-Runs (cap-Asks env op_name cap) (λ _. next)
