-- ===== src/Lvm/Safety.antt =====
-- src/plugins/lvm/lvm.c: what an operation may do, as a plan: the runs of `lvm` that it makes, one after the
-- other, which depend on the global configuration.
pub mod Steps
pub mod Composed
pub mod Completes
use libblockdev.Base.{
  Option, none, some, List, [], ◌∷◌, ◌++◌, Bytes, Result, ok, err, GError, prefix_error, ◌≡◌, ◌≢◌,
  refl, sym, ap, subst, ◌∙◌, append-nil, append_assoc,
}
use mathlib.Core.Option
use libblockdev.Lvm.Config.{Globals}
use libblockdev.Lvm.Ops.{Call, World, M, proceed, ◌>>=◌, ◌>>◌, pure, checked, with_prefix, prefixed}

-- Only the first part of the plan was run.
abbrev pub Begun : List Call → List Call → World → Type 0
Begun plan calls w =
    (done : List Call) × (rest : List Call) × (done ++ rest ≡ plan) × (w.calls ≡ calls ++ done)

-- Success: the whole plan was run, and there is no error. Failure: a first part was run, and there is an
-- error. The configuration is as before in both cases.
abbrev pub Outcome : {A : Type 0} → List Call → Globals → List Call → World × Option A → Type 0
Outcome plan g calls (w, some a) = (w.calls ≡ calls ++ plan) × (w.globals ≡ g) × (w.error ≡ none)
Outcome plan g calls (w, none) = Begun plan calls w × (w.globals ≡ g) × (w.error ≢ none)

pub record Runs {A : Type 0} (plan : Globals → List Call) (m : M A) : Type 0 where
  pub holds : (w : World) → w.error ≡ none → Outcome (plan w.globals) w.globals w.calls (m w)

extend :
    {A : Type 0} (front plan calls calls' : List Call) (g : Globals) (x : World × Option A)
    → calls' ≡ calls ++ front
    → Outcome plan g calls' x
    → Outcome (front ++ plan) g calls x
extend front plan calls calls' g (w, some a) same (ran, kept, clean) =
    (ran ∙ ap (λ c. c ++ plan) same ∙ append_assoc calls front plan, kept, clean)
extend front plan calls calls' g (w, none) same ((done, rest, split, ran), kept, bad) = (
  (
    front ++ done,
    rest,
    append_assoc front done rest ∙ ap (λ c. front ++ c) split,
    ran ∙ ap (λ c. c ++ done) same ∙ append_assoc calls front done,
  ),
  kept,
  bad,
)

pub proceed-Outcome :
    {A B : Type 0} (p q : Globals → List Call) (g : Globals) (calls : List Call) (next : A → M B)
    (x : World × Option A)
    → Outcome (p g) g calls x
    → ((a : A) → Runs q (next a))
    → Outcome (p g ++ q g) g calls (proceed next x)
proceed-Outcome p q g calls next (w, none) ((done, rest, split, ran), kept, bad) k = (
  (done, rest ++ q g, sym (append_assoc done rest (q g)) ∙ ap (λ c. c ++ q g) split, ran),
  kept,
  bad,
)
proceed-Outcome p q g calls next (w, some a) (ran, kept, clean) k =
    extend (p g) (q g) calls w.calls g (next a w) ran
      (subst (λ h. Outcome (q h) h w.calls (next a w)) kept ((k a).holds w clean))

pub >>=-Runs :
    {A B : Type 0} {p q : Globals → List Call} {m : M A} {next : A → M B}
    → Runs p m
    → ((a : A) → Runs q (next a))
    → Runs (λ g. p g ++ q g) (m >>= next)
unfolding ◌>>=◌
>>=-Runs {p} {q} {m} {next} r k = record {
  holds = λ w clean. proceed-Outcome p q w.globals w.calls next (m w) (r.holds w clean) k;
}

pub >>-Runs :
    {B : Type 0} {p q : Globals → List Call} {m : M (Unit {0})} {rest : M B}
    → Runs p m
    → Runs q rest
    → Runs (λ g. p g ++ q g) (m >> rest)
unfolding ◌>>◌
>>-Runs r k = >>=-Runs r (λ _. k)

-- A plan is what it says for each configuration.
pub Runs-same :
    {A : Type 0} {p q : Globals → List Call} {m : M A}
    → ((g : Globals) → p g ≡ q g)
    → Runs p m
    → Runs q m
Runs-same {m} same r = record {
  holds = λ w clean.
      subst (λ plan. Outcome plan w.globals w.calls (m w)) (same w.globals) (r.holds w clean);
}

-- A plan of nothing: an operation that only reads, or a check.
abbrev pub nothing : Globals → List Call
nothing g = []

pub checked_outcome :
    {A : Type 0} (r : Result A) (w : World)
    → w.error ≡ none
    → Outcome [] w.globals w.calls (checked r w)
unfolding checked
checked_outcome (ok a) w clean = (sym (append-nil w.calls), refl, clean)
checked_outcome (err e) w clean = (([], [], refl, sym (append-nil w.calls)), refl, λ h. cc)

pub checked-Runs : {A : Type 0} (r : Result A) → Runs nothing (checked r)
checked-Runs r = record { holds = checked_outcome r }

pub pure-Runs : {A : Type 0} (a : A) → Runs nothing (pure a)
unfolding pure
pure-Runs a = record { holds = λ w clean. (sym (append-nil w.calls), refl, clean) }

-- What is behind the runs only reads.
pub >>=-reads :
    {A B : Type 0} {p : Globals → List Call} {m : M A} {next : A → M B}
    → Runs p m
    → ((a : A) → Runs nothing (next a))
    → Runs p (m >>= next)
>>=-reads {p} r k = Runs-same (λ g. append-nil (p g)) (>>=-Runs r k)

map-ne-none :
    (text : Bytes) (e : Option GError) → e ≢ none → Option.map (prefix_error text) e ≢ none
map-ne-none text none h = absurd (h refl)
map-ne-none text (some e) h = λ z. cc

with_prefix-Outcome :
    {A : Type 0} (text : Bytes) (plan : List Call) (g : Globals) (calls : List Call)
    (x : World × Option A)
    → Outcome plan g calls x
    → Outcome plan g calls (with_prefix text x)
with_prefix-Outcome text plan g calls (w, some a) o = o
with_prefix-Outcome text plan g calls (w, none) (begun, kept, bad) =
    (begun, kept, map-ne-none text w.error bad)

pub prefixed-Runs :
    {A : Type 0} {p : Globals → List Call} {m : M A} (text : Bytes)
    → Runs p m
    → Runs p (prefixed text m)
unfolding prefixed
prefixed-Runs {p} {m} text r = record {
  holds =
      λ w clean. with_prefix-Outcome text (p w.globals) w.globals w.calls (m w) (r.holds w clean);
}
