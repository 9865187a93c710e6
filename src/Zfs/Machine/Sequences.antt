-- ===== src/Zfs/Machine/Sequences.antt =====
-- Whatever sequence of operations a caller makes: the programs that are run, the errors and the
-- capabilities.
use libblockdev.Base.{
  ℕ, ◌≤◌, arith, if◌then◌else◌, Option, none, some, List, [], ◌∷◌, ◌++◌, ◌≡◌, refl, sym, ap, ◌∙◌,
  inl, inr, append-nil, append_assoc,
}
use libblockdev.Zfs.Caps.{close}
use libblockdev.Zfs.Ops.{Call, World, Env, version_calls}
use libblockdev.Zfs.Machine.{
  Op, Event, Ending, succeeded, failed, freed_used, stopped, op, version, closed, dropped, discard,
  close_world, handle, fresh, step, run,
}
use libblockdev.Zfs.Safety.Rules.{Asked, Quiet, OneMore, Sound, quiet}
use libblockdev.Zfs.Ops.Pools.{get_zfs_version}
use libblockdev.Zfs.Machine.Safe.{dropped-Sound, perform-Performs, IsOf, EndsWell, step-EndsWell}
use libblockdev.Zfs.Safety.Probes.{get_zfs_version-Asks}

-- The programs of a sequence of calls: in order, at most one for each operation, with an array of that
-- operation, and at most two runs of `zfs version` for each event, in front of its program.
pub data MadeBy : List Event → List Call → Type 0 where
  nobody : MadeBy [] []
  silent :
      {e : Event} {es : List Event} (n : ℕ) (cs : List Call)
      → n ≤ 2
      → MadeBy es cs
      → MadeBy (e ∷ es) (version_calls n ++ cs)
  made :
      {o : Op} {es : List Event} (n : ℕ) (c : Call) (cs : List Call)
      → n ≤ 2
      → IsOf o c.argv
      → MadeBy es cs
      → MadeBy (op o ∷ es) (version_calls n ++ (c ∷ cs))

-- The programs that were run behind `calls`, as the events made them.
abbrev pub Logged : List Event → List Call → List Call → Type 0
Logged es calls after = (cs : List Call) × (after ≡ calls ++ cs) × MadeBy es cs

idle : (es : List Event) → MadeBy es []
idle [] = nobody
idle (e ∷ es) = silent 0 [] (omega arith) (idle es)

quiet_event :
    (e : Event) (es : List Event) (calls after : List Call) (w : World)
    → Quiet 2 calls w
    → Logged es w.calls after
    → Logged (e ∷ es) calls after
quiet_event e es calls after w (n, few, same) (cs, split, m) = (
  version_calls n ++ cs,
  split ∙ ap (λ x. x ++ cs) same ∙ append_assoc calls (version_calls n) cs,
  silent n cs few m,
)

one_event :
    (o : Op) (es : List Event) (calls after : List Call) (w : World)
    → OneMore 2 (IsOf o) calls w
    → Logged es w.calls after
    → Logged (op o ∷ es) calls after
one_event o es calls after w (n, few, c, fine, same) (cs, split, m) = (
  version_calls n ++ (c ∷ cs),
  split
      ∙ ap (λ x. x ++ cs) same
      ∙ append_assoc calls (version_calls n ++ (c ∷ [])) cs
      ∙ ap (λ x. calls ++ x) (append_assoc (version_calls n) (c ∷ []) cs),
  made n c cs few fine m,
)

-- What is left of a run behind one call.
abbrev ahead : World × Ending → World → World
ahead x rest = if stopped (x.1) then x.0 else rest

op_event :
    (o : Op) (es : List Event) (calls : List Call) (rest : World) (x : World × Ending)
    → EndsWell o calls x
    → Logged es ((x.0).calls) rest.calls
    → Logged (op o ∷ es) calls (ahead x rest).calls
op_event o es calls rest (w, succeeded) (run, _) l = one_event o es calls rest.calls w run l
op_event o es calls rest (w, failed) (inl q, _) l = quiet_event (op o) es calls rest.calls w q l
op_event o es calls rest (w, failed) (inr run, _) l = one_event o es calls rest.calls w run l
op_event o es calls rest (w, freed_used) (run, _) l =
    one_event o es calls w.calls w run ([], sym (append-nil w.calls), idle es)

dropped_event :
    {A : Type 0} (e : Event) (es : List Event) (calls : List Call) (rest : World)
    (x : World × Option A)
    → Asked calls x
    → Logged es (dropped x).0.calls rest.calls
    → Logged (e ∷ es) calls (ahead (dropped x) rest).calls
dropped_event e es calls rest (w, none) (q, _) l = quiet_event e es calls rest.calls w q l
dropped_event e es calls rest (w, some a) (q, _) l = quiet_event e es calls rest.calls w q l

-- For any sequence of operations, questions about the version and closings of the plugin, in any state
-- and whatever the programs answer, up to a use of freed memory if there is one: the programs that are
-- run are, in order, for each of these at most two runs of `zfs version`, and then for an operation at
-- most one more program, with an array of that operation: its option words and the strings given on
-- purpose, each once and in order, else only strings that no program takes for an option, and no more
-- than fits into the slots allocated.
pub run-MadeBy : (env : Env) (es : List Event) (w : World) → Logged es w.calls (run env es w).calls
unfolding run step handle discard close_world
run-MadeBy env [] w = ([], sym (append-nil w.calls), nobody)
run-MadeBy env (op o ∷ es) w =
    op_event o es w.calls (run env es (step env (op o) w).0) (step env (op o) w)
      (step-EndsWell env o w) (run-MadeBy env es (step env (op o) w).0)
run-MadeBy env (version ∷ es) w =
    dropped_event version es w.calls (run env es (step env version w).0)
      (get_zfs_version env (fresh w)) ((get_zfs_version-Asks env).holds (fresh w) refl)
      (run-MadeBy env es (step env version w).0)
run-MadeBy env (closed ∷ es) w =
    quiet_event closed es w.calls (run env es (step env closed w).0).calls (step env closed w).0
      (quiet 2 w.calls (step env closed w).0 refl) (run-MadeBy env es (step env closed w).0)

step-Sound : (env : Env) (e : Event) (w : World) → Sound w → Sound (step env e w).0
unfolding step handle close_world close discard
step-Sound env (op o) w s = (perform-Performs env o).keeps (fresh w) refl s
step-Sound env version w s =
    dropped-Sound (get_zfs_version env (fresh w))
      ((get_zfs_version-Asks env).keeps (fresh w) refl s)
step-Sound env closed w s = inl refl

ahead-Sound : (x : World × Ending) (rest : World) → Sound x.0 → Sound rest → Sound (ahead x rest)
ahead-Sound (w, succeeded) rest s t = t
ahead-Sound (w, failed) rest s t = t
ahead-Sound (w, freed_used) rest s t = s

-- From consistent capabilities, any sequence of operations, questions and closings, up to a use of freed
-- memory if there is one, and whatever `zfs version` gives each time it is run, leads to consistent ones:
-- not probed and all off, or probed with the four that came with 0.8.0 in agreement.
pub run-Sound : (env : Env) (es : List Event) (w : World) → Sound w → Sound (run env es w)
unfolding run
run-Sound env [] w s = s
run-Sound env (e ∷ es) w s =
    ahead-Sound (step env e w) (run env es (step env e w).0) (step-Sound env e w s)
      (run-Sound env es (step env e w).0 (step-Sound env e w s))
