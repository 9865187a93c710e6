-- ===== src/Zfs/Safety/Rules.antt =====
-- The rules by which an operation is taken apart: checks run nothing, questions only `zfs version`, and
-- both set an error when they refuse; what follows them runs one program.
use libblockdev.Base.{
  ℕ, ◌≤◌, zero, suc, arith, sym, ap, append-nil, append_assoc, Option, none, some, List, [], ◌∷◌,
  ◌++◌, Bytes, Result, ok, err, ◌≡◌, ◌≢◌, refl, ◌∙◌, ◌⊎◌, inl, inr, subst,
}
use libblockdev.Zfs.Names.{NotOption}
use libblockdev.Zfs.Caps.Probed.{IsConsistent}
use libblockdev.Zfs.Pool.{Argv, check_name}
use libblockdev.Zfs.Pool.Guards.{check_name-ok}
use libblockdev.Zfs.Ops.{Call, World, M, proceed, ◌>>=◌, ◌>>◌, pure, checked, version_calls}

abbrev pub Anything : {A : Type 0} → A → Type 0
Anything a = Unit

-- The capabilities of the plugin are consistent.
abbrev pub Sound : World → Type 0
Sound w = IsConsistent w.plugin.caps

-- The new world and the result of a check: nothing was run, and an error is set exactly if the check
-- refuses; what it lets pass is as described.
abbrev pub Passed : {A : Type 0} → (A → Type 0) → List Call → World × Option A → Type 0
Passed Q calls (w, none) = (w.calls ≡ calls) × (w.plugin.error ≢ none)
Passed Q calls (w, some a) = (w.calls ≡ calls) × (w.plugin.error ≡ none) × Q a

pub record Checks {A : Type 0} (Q : A → Type 0) (m : M A) : Type 0 where
  pub holds : (w : World) → w.plugin.error ≡ none → Passed Q w.calls (m w)
  pub keeps : (w : World) → w.plugin.error ≡ none → Sound w → Sound (m w).0

-- Nothing more was run but `zfs version`, at most `k` times.
abbrev pub Quiet : ℕ → List Call → World → Type 0
Quiet k calls w = (n : ℕ) × (n ≤ k) × (w.calls ≡ calls ++ version_calls n)

-- A question that is answered, or has set an error, and has run `zfs version` at most twice.
abbrev pub Asked : {A : Type 0} → List Call → World × Option A → Type 0
Asked calls (w, none) = Quiet 2 calls w × (w.plugin.error ≢ none)
Asked calls (w, some a) = Quiet 2 calls w × (w.plugin.error ≡ none)

pub record Asks {A : Type 0} (m : M A) : Type 0 where
  pub holds : (w : World) → w.plugin.error ≡ none → Asked w.calls (m w)
  pub keeps : (w : World) → w.plugin.error ≡ none → Sound w → Sound (m w).0

-- Behind at most `k` runs of `zfs version`, one program more was run, with an array as described.
abbrev pub OneMore : ℕ → (Argv → Type 0) → List Call → World → Type 0
OneMore k P calls w =
    (n : ℕ) × (n ≤ k) × (c : Call) × P c.argv × (w.calls ≡ calls ++ (version_calls n ++ (c ∷ [])))

-- An operation that succeeds has run one program and set no error; one that fails has set an error and
-- run at most one.
abbrev pub Ended : {A : Type 0} → ℕ → (Argv → Type 0) → List Call → World × Option A → Type 0
Ended k P calls (w, none) = (Quiet k calls w ⊎ OneMore k P calls w) × (w.plugin.error ≢ none)
Ended k P calls (w, some a) = OneMore k P calls w × (w.plugin.error ≡ none)

pub record RunsUpTo {A : Type 0} (k : ℕ) (P : Argv → Type 0) (m : M A) : Type 0 where
  pub holds : (w : World) → w.plugin.error ≡ none → Ended k P w.calls (m w)
  pub keeps : (w : World) → w.plugin.error ≡ none → Sound w → Sound (m w).0

-- An operation asks at most twice.
abbrev pub Runs : {A : Type 0} → (Argv → Type 0) → M A → Type 0
Runs P m = RunsUpTo 2 P m

pub quiet : (k : ℕ) (calls : List Call) (w : World) → w.calls ≡ calls → Quiet k calls w
quiet k calls w same = (0, omega arith, same ∙ sym (append-nil calls))

-- Behind a question there is none.
after_version :
    (n m : ℕ) (tail calls mid after : List Call)
    → m ≤ 0
    → mid ≡ calls ++ version_calls n
    → after ≡ mid ++ (version_calls m ++ tail)
    → after ≡ calls ++ (version_calls n ++ tail)
after_version n zero tail calls mid after small before more =
    more ∙ ap (λ l. l ++ tail) before ∙ append_assoc calls (version_calls n) tail
after_version n (suc m) tail calls mid after small before more = absurd (omega arith)

Quiet-more :
    (calls mid : List Call) (n : ℕ) (w : World)
    → n ≤ 2
    → mid ≡ calls ++ version_calls n
    → Quiet 0 mid w
    → Quiet 2 calls w
Quiet-more calls mid n w few before (m, small, same) = (
  n,
  few,
  after_version n m [] calls mid w.calls small before
        (same ∙ ap (λ l. mid ++ l) (sym (append-nil (version_calls m))))
      ∙ ap (λ l. calls ++ l) (append-nil (version_calls n)),
)

OneMore-more :
    (P : Argv → Type 0) (calls mid : List Call) (n : ℕ) (w : World)
    → n ≤ 2
    → mid ≡ calls ++ version_calls n
    → OneMore 0 P mid w
    → OneMore 2 P calls w
OneMore-more P calls mid n w few before (m, small, c, p, same) =
    (n, few, c, p, after_version n m (c ∷ []) calls mid w.calls small before same)

Ended-more :
    {A : Type 0} (P : Argv → Type 0) (calls mid : List Call) (n : ℕ) (x : World × Option A)
    → n ≤ 2
    → mid ≡ calls ++ version_calls n
    → Ended 0 P mid x
    → Ended 2 P calls x
Ended-more P calls mid n (w, none) few before (inl q, bad) =
    (inl (Quiet-more calls mid n w few before q), bad)
Ended-more P calls mid n (w, none) few before (inr run, bad) =
    (inr (OneMore-more P calls mid n w few before run), bad)
Ended-more P calls mid n (w, some a) few before (run, clean) =
    (OneMore-more P calls mid n w few before run, clean)

question-Ended :
    {A B : Type 0} (P : Argv → Type 0) (calls : List Call) (next : A → M B) (x : World × Option A)
    → Asked calls x
    → ((a : A) → RunsUpTo 0 P (next a))
    → Ended 2 P calls (proceed next x)
question-Ended P calls next (w, none) (q, bad) k = (inl q, bad)
question-Ended P calls next (w, some a) ((n, few, before), clean) k =
    Ended-more P calls w.calls n (next a w) few before ((k a).holds w clean)

question-Sound :
    {A B : Type 0} (P : Argv → Type 0) (calls : List Call) (next : A → M B) (x : World × Option A)
    → Asked calls x
    → ((a : A) → RunsUpTo 0 P (next a))
    → Sound x.0
    → Sound (proceed next x).0
question-Sound P calls next (w, none) q k s = s
question-Sound P calls next (w, some a) (q, clean) k s = (k a).keeps w clean s

-- A question, and what runs a program behind it.
pub question-Runs :
    {A B : Type 0} {P : Argv → Type 0} {m : M A} {next : A → M B}
    → Asks m
    → ((a : A) → RunsUpTo 0 P (next a))
    → Runs P (m >>= next)
unfolding ◌>>=◌
question-Runs {P} {m} {next} c k = record {
  holds = λ w clean. question-Ended P w.calls next (m w) (c.holds w clean) k;
  keeps = λ w clean s. question-Sound P w.calls next (m w) (c.holds w clean) k (c.keeps w clean s);
}

proceed-Ended :
    {A B : Type 0} (k : ℕ) (Q : A → Type 0) (P : Argv → Type 0) (calls : List Call) (next : A → M B)
    (x : World × Option A)
    → Passed Q calls x
    → ((a : A) → Q a → RunsUpTo k P (next a))
    → Ended k P calls (proceed next x)
proceed-Ended k Q P calls next (w, none) (same, bad) h = (inl (quiet k calls w same), bad)
proceed-Ended k Q P calls next (w, some a) (same, clean, q) h =
    subst (λ cs. Ended k P cs (next a w)) same ((h a q).holds w clean)

proceed-keeps :
    {A B : Type 0} (k : ℕ) (Q : A → Type 0) (P : Argv → Type 0) (calls : List Call) (next : A → M B)
    (x : World × Option A)
    → Passed Q calls x
    → ((a : A) → Q a → RunsUpTo k P (next a))
    → Sound x.0
    → Sound (proceed next x).0
proceed-keeps k Q P calls next (w, none) passed h s = s
proceed-keeps k Q P calls next (w, some a) (same, clean, q) h s = (h a q).keeps w clean s

pub >>=-Runs :
    {A B : Type 0} {k : ℕ} {Q : A → Type 0} {P : Argv → Type 0} {m : M A} {next : A → M B}
    → Checks Q m
    → ((a : A) → Q a → RunsUpTo k P (next a))
    → RunsUpTo k P (m >>= next)
unfolding ◌>>=◌
>>=-Runs {k} {Q} {P} {m} {next} c h = record {
  holds = λ w clean. proceed-Ended k Q P w.calls next (m w) (c.holds w clean) h;
  keeps =
      λ w clean s. proceed-keeps k Q P w.calls next (m w) (c.holds w clean) h (c.keeps w clean s);
}

pub >>-Runs :
    {B : Type 0} {k : ℕ} {P : Argv → Type 0} {m : M (Unit {0})} {rest : M B} (Q : Unit {0} → Type 0)
    → Checks Q m
    → ((u : Unit {0}) → Q u → RunsUpTo k P rest)
    → RunsUpTo k P (m >> rest)
unfolding ◌>>◌
>>-Runs Q c h = >>=-Runs {Q = Q} c h

then-Asked :
    {A B : Type 0} (calls : List Call) (next : A → M B) (x : World × Option A)
    → Passed Anything calls x
    → ((a : A) → Asks (next a))
    → Asked calls (proceed next x)
then-Asked calls next (w, none) (same, bad) k = (quiet 2 calls w same, bad)
then-Asked calls next (w, some a) (same, clean, _) k =
    subst (λ cs. Asked cs (next a w)) same ((k a).holds w clean)

then-Sound :
    {A B : Type 0} (calls : List Call) (next : A → M B) (x : World × Option A)
    → Passed Anything calls x
    → ((a : A) → Asks (next a))
    → Sound x.0
    → Sound (proceed next x).0
then-Sound calls next (w, none) passed k s = s
then-Sound calls next (w, some a) (same, clean, _) k s = (k a).keeps w clean s

-- A check and a question behind it.
pub >>-Asks :
    {B : Type 0} {m : M (Unit {0})} {rest : M B} → Checks Anything m → Asks rest → Asks (m >> rest)
unfolding ◌>>◌ ◌>>=◌
>>-Asks {m} {rest} c k = record {
  holds = λ w clean. then-Asked w.calls (λ _. rest) (m w) (c.holds w clean) (λ _. k);
  keeps = λ w clean s.
      then-Sound w.calls (λ _. rest) (m w) (c.holds w clean) (λ _. k) (c.keeps w clean s);
}

one_more :
    (k : ℕ) (P : Argv → Type 0) (calls : List Call) (w v : World)
    → v.calls ≡ w.calls
    → OneMore k P calls w
    → OneMore k P calls v
one_more k P calls w v same (n, few, c, p, e) = (n, few, c, p, same ∙ e)

settled :
    {B : Type 0} (k : ℕ) (P : Argv → Type 0) (R : B → Type 0) (calls : List Call) (w : World)
    (y : World × Option B)
    → Passed R w.calls y
    → OneMore k P calls w
    → Ended k P calls y
settled k P R calls w (v, none) (same, bad) run = (inr (one_more k P calls w v same run), bad)
settled k P R calls w (v, some b) (same, clean, _) run = (one_more k P calls w v same run, clean)

proceed-reads :
    {A B : Type 0} (k : ℕ) (P : Argv → Type 0) (R : B → Type 0) (calls : List Call) (next : A → M B)
    (x : World × Option A)
    → Ended k P calls x
    → ((a : A) → Checks R (next a))
    → Ended k P calls (proceed next x)
proceed-reads k P R calls next (w, none) e h = e
proceed-reads k P R calls next (w, some a) (run, clean) h =
    settled k P R calls w (next a w) ((h a).holds w clean) run

reads-keeps :
    {A B : Type 0} (k : ℕ) (P : Argv → Type 0) (R : B → Type 0) (calls : List Call) (next : A → M B)
    (x : World × Option A)
    → Ended k P calls x
    → ((a : A) → Checks R (next a))
    → Sound x.0
    → Sound (proceed next x).0
reads-keeps k P R calls next (w, none) e h s = s
reads-keeps k P R calls next (w, some a) (run, clean) h s = (h a).keeps w clean s

-- What comes behind the program only reads its output.
pub >>=-reads :
    {A B : Type 0} {k : ℕ} {R : B → Type 0} {P : Argv → Type 0} {m : M A} {next : A → M B}
    → RunsUpTo k P m
    → ((a : A) → Checks R (next a))
    → RunsUpTo k P (m >>= next)
unfolding ◌>>=◌
>>=-reads {k} {R} {P} {m} {next} r h = record {
  holds = λ w clean. proceed-reads k P R w.calls next (m w) (r.holds w clean) h;
  keeps = λ w clean s. reads-keeps k P R w.calls next (m w) (r.holds w clean) h (r.keeps w clean s);
}

pub pure-Checks : {A : Type 0} (a : A) → Checks Anything (pure a)
unfolding pure
pure-Checks a = record { holds = λ w clean. (refl, clean, tt); keeps = λ w clean s. s }

pub checked_holds :
    {A : Type 0} (Q : A → Type 0) (r : Result A) (w : World)
    → ((a : A) → r ≡ ok a → Q a)
    → w.plugin.error ≡ none
    → Passed Q w.calls (checked r w)
unfolding checked
checked_holds Q (ok a) w k clean = (refl, clean, k a refl)
checked_holds Q (err e) w k clean = (refl, λ h. cc)

pub checked_keeps : {A : Type 0} (r : Result A) (w : World) → Sound w → Sound (checked r w).0
unfolding checked
checked_keeps (ok a) w s = s
checked_keeps (err e) w s = s

pub checked-Checks :
    {A : Type 0} {Q : A → Type 0} {r : Result A} → ((a : A) → r ≡ ok a → Q a) → Checks Q (checked r)
checked-Checks {Q} {r} k = record {
  holds = λ w clean. checked_holds Q r w k clean;
  keeps = λ w clean s. checked_keeps r w s;
}

pub Anything-Checks : {A : Type 0} (r : Result A) → Checks Anything (checked r)
Anything-Checks r = checked-Checks (λ _ _. tt)

pub named-Checks :
    (name : Option Bytes) (param : Bytes) → Checks NotOption (checked (check_name name param))
named-Checks name param = checked-Checks (λ n h. (check_name-ok name param n h).1)
