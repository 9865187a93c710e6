-- ===== src/Lvm/Machine/Sequences.antt =====
-- src/plugins/lvm/lvm.c and src/plugins/lvm/lvm-common.c: any sequence of operations and changes of the
-- configuration.
use libblockdev.Base.{
  Option, none, some, List, [], ◌∷◌, ◌++◌, Result, ok, err, ◌≡◌, refl, sym, ap, subst, ◌∙◌,
  append-nil, append_assoc,
}
use libblockdev.Lvm.Config.{Globals, set_global_config, set_devices_filter}
use libblockdev.Lvm.Ops.{Call, World, Env}
use libblockdev.Lvm.Safety.{Outcome, Begun}
use libblockdev.Lvm.Machine.{
  Op, Event, op, set_config, set_devices, taken, fresh, handle, run, perform,
}
use libblockdev.Lvm.Machine.Plans.{plan}
use libblockdev.Lvm.Machine.Safe.{perform-Outcome}

-- The configuration as only the changes make it.
abbrev or_old : Globals → Result Globals → Globals
or_old g (ok g') = g'
or_old g (err e) = g

pub configured : Globals → List Event → Globals
configured g [] = g
configured g (op o ∷ events) = configured g events
configured g (set_config new_config ∷ events) = configured (set_global_config new_config g) events
configured g (set_devices avail devices ∷ events) =
    configured (or_old g (set_devices_filter avail devices g)) events

-- What is run: of each operation a first part of its plan under the configuration at that time, and
-- nothing for a change of the configuration.
pub data Follows (env : Env) : Globals → List Event → List Call → Type 0 where
  over : {g : Globals} → Follows env g [] []
  changed :
      {g : Globals} (g' : Globals) {e : Event} {es : List Event} {cs : List Call}
      → configured g (e ∷ []) ≡ g'
      → Follows env g' es cs
      → Follows env g (e ∷ es) cs
  worked :
      {g : Globals} {o : Op} {es : List Event} {all : List Call} (done rest cs : List Call)
      → done ++ rest ≡ plan env o g
      → all ≡ done ++ cs
      → Follows env g es cs
      → Follows env g (op o ∷ es) all

outcome_globals :
    {A : Type 0} (p : List Call) (g : Globals) (calls : List Call) (x : World × Option A)
    → Outcome p g calls x
    → (x.0).globals ≡ g
outcome_globals p g calls (w, some a) (ran, kept, clean) = kept
outcome_globals p g calls (w, none) (part, kept, bad) = kept

outcome-Begun :
    {A : Type 0} (p : List Call) (g : Globals) (calls : List Call) (x : World × Option A)
    → Outcome p g calls x
    → Begun p calls x.0
outcome-Begun p g calls (w, some a) (ran, kept, clean) = (p, [], append-nil p, ran)
outcome-Begun p g calls (w, none) (part, kept, bad) = part

taken_globals : (w : World) (r : Result Globals) → (taken w r).0.globals ≡ or_old w.globals r
taken_globals w (ok g) = refl
taken_globals w (err e) = refl

taken_calls : (w : World) (r : Result Globals) → (taken w r).0.calls ≡ w.calls
taken_calls w (ok g) = refl
taken_calls w (err e) = refl

event_globals :
    (env : Env) (e : Event) (w : World)
    → (handle env e (fresh w)).0.globals ≡ configured w.globals (e ∷ [])
unfolding handle configured
event_globals env (op o) w =
    outcome_globals (plan env o w.globals) w.globals w.calls (perform env o (fresh w))
      (perform-Outcome env o w)
event_globals env (set_config new_config) w = refl
event_globals env (set_devices avail devices) w =
    taken_globals (fresh w) (set_devices_filter avail devices w.globals)

configured_cons :
    (g : Globals) (e : Event) (es : List Event)
    → configured g (e ∷ es) ≡ configured (configured g (e ∷ [])) es
unfolding configured
configured_cons g (op o) es = refl
configured_cons g (set_config new_config) es = refl
configured_cons g (set_devices avail devices) es = refl

-- Whatever operations are called in between, and however they end, the configuration and the devices
-- filter are those that the changes alone would leave: no operation has an effect on them.
pub run-configured :
    (env : Env) (events : List Event) (w : World)
    → (run env events w).globals ≡ configured w.globals events
unfolding run configured
run-configured env [] w = refl
run-configured env (e ∷ events) w =
    run-configured env events (handle env e (fresh w)).0
    ∙ ap (λ g. configured g events) (event_globals env e w)
    ∙ sym (configured_cons w.globals e events)

-- The runs of one event in front of those of the rest.
abbrev Logged : Env → Globals → List Event → List Call → List Call → Type 0
Logged env g es calls after = (cs : List Call) × (after ≡ calls ++ cs) × Follows env g es cs

later :
    (env : Env) (es : List Event) (g g' : Globals) (calls after : List Call)
    → g' ≡ g
    → Logged env g' es calls after
    → Logged env g es calls after
later env es g g' calls after same logged = subst (λ h. Logged env h es calls after) same logged

add_worked :
    (env : Env) (o : Op) (es : List Event) (g : Globals) (calls after : List Call) (v : World)
    → Begun (plan env o g) calls v
    → Logged env g es v.calls after
    → Logged env g (op o ∷ es) calls after
add_worked env o es g calls after v (done, rest, split, ran) (cs, ended, follows) = (
  done ++ cs,
  ended ∙ ap (λ c. c ++ cs) ran ∙ append_assoc calls done cs,
  worked done rest cs split refl follows,
)

add_changed :
    (env : Env) (e : Event) (es : List Event) (g g' : Globals) (calls calls' after : List Call)
    → configured g (e ∷ []) ≡ g'
    → calls' ≡ calls
    → Logged env g' es calls' after
    → Logged env g (e ∷ es) calls after
add_changed env e es g g' calls calls' after same quiet (cs, ended, follows) =
    (cs, ended ∙ ap (λ c. c ++ cs) quiet, changed g' same follows)

-- Whatever is called and however the runs of the operations end, for tools that answer the questions for
-- their version alike each time: besides the runs that ask for the version, which stand in a log of their
-- own, the runs of `lvm` are, in order, a first part of the plan of each operation, under the
-- configuration that the changes before it have left; a change of the configuration runs nothing.
pub run-Follows :
    (env : Env) (events : List Event) (w : World)
    → (cs : List Call) × ((run env events w).calls ≡ w.calls ++ cs)
      × Follows env w.globals events cs
unfolding run handle
run-Follows env [] w = ([], sym (append-nil w.calls), over)
run-Follows env (op o ∷ events) w =
    add_worked env o events w.globals w.calls _ (perform env o (fresh w)).0
      (outcome-Begun (plan env o w.globals) w.globals w.calls (perform env o (fresh w))
        (perform-Outcome env o w))
      (later env events w.globals (perform env o (fresh w)).0.globals _ _
        (outcome_globals (plan env o w.globals) w.globals w.calls (perform env o (fresh w))
          (perform-Outcome env o w))
        (run-Follows env events (perform env o (fresh w)).0))
run-Follows env (set_config new_config ∷ events) w =
    add_changed env (set_config new_config) events w.globals _ w.calls _ _
      (sym (event_globals env (set_config new_config) w)) refl
      (run-Follows env events (handle env (set_config new_config) (fresh w)).0)
run-Follows env (set_devices avail devices ∷ events) w =
    add_changed env (set_devices avail devices) events w.globals _ w.calls _ _
      (sym (event_globals env (set_devices avail devices) w))
      (taken_calls (fresh w) (set_devices_filter avail devices w.globals))
      (run-Follows env events (handle env (set_devices avail devices) (fresh w)).0)
