-- ===== src/Zfs/Caps/Questions.antt =====
-- The questions about the version: how they are answered, and that an answer is kept.
use libblockdev.Base.{
  ℕ, suc, ◌≤◌, ◌<◌, Option, none, some, List, Bool, true, false, Bytes, if◌then◌else◌, ltb, length,
  get_or, Result, ok, err, ◌≡◌, refl, ap, ◌∙◌, arith, ◌⊎◌, inl, inr, Bool-cases, ◌↔◌, strsplit_set,
  ◌==◌,
}
use libblockdev.Zfs.Version.{
  Plugin, Versions, probe_version, run_version, keep_version, first_version, scan_numbers,
  set_error,
}
use libblockdev.Zfs.Caps.{newer_or_same, judge_version, version_at_least}

-- The order of the versions by their three numbers.
abbrev pub AtLeast : ℕ → ℕ → ℕ → List ℕ → Type 0
AtLeast major minor patch v =
    (major < get_or v 0 0)
    ⊎ ((major ≡ get_or v 0 0)
        × ((minor < get_or v 1 0) ⊎ ((minor ≡ get_or v 1 0) × (patch ≤ get_or v 2 0))))

pub newer_or_same_iff :
    (major minor patch : ℕ) (v : List ℕ)
    → (newer_or_same major minor patch v ≡ true) ↔ AtLeast major minor patch v
unfolding newer_or_same
newer_or_same_iff major minor patch v = (λ h. ground arith, λ h. ground arith)

-- The answer of a question, by the version that is found.
unfoldable pub accepts : ℕ → ℕ → ℕ → Option Bytes → Bool
accepts major minor patch none = false
accepts major minor patch (some v) =
    if ltb (length (scan_numbers 3 v)) 2
    then false
    else newer_or_same major minor patch (scan_numbers 3 v)

pub judge_version-accepts :
    (major minor patch : ℕ) (s : Plugin) (o : Option Bytes)
    → ((judge_version major minor patch (s, o)).1 ≡ accepts major minor patch o)
      × ((judge_version major minor patch (s, o)).0.cached ≡ s.cached)
      × ((judge_version major minor patch (s, o)).0.avail ≡ s.avail)
      × ((judge_version major minor patch (s, o)).0.caps ≡ s.caps)
unfolding judge_version accepts set_error
judge_version-accepts major minor patch s none = (refl, refl, refl, refl)
judge_version-accepts major minor patch s (some v) =
    elim (Bool-cases (ltb (length (scan_numbers 3 v)) 2)) [
      | inl e ↦ rw e (refl, refl, refl, refl)
      | inr e ↦ elim (Bool-cases (newer_or_same major minor patch (scan_numbers 3 v))) [
        | inl f ↦ rw (e, f) (refl, refl, refl, refl)
        | inr f ↦ rw (e, f) (refl, refl, refl, refl)
      ]
    ]

-- The version in the output of the program.
unfoldable pub output_version : Result Bytes → Option Bytes
output_version (err e) = none
output_version (ok out) = first_version (strsplit_set (λ c. c == b'\n') out)

-- What a probe finds, by the cache and the runs before it.
unfoldable pub found : Versions → Plugin → Option Bytes
unfolding output_version
found versions s = elim s.cached [ none ↦ output_version (versions s.asked) | some v ↦ some v ]

-- A step of a probe has an answer, caches just that, and touches nothing else but the error.
unfoldable pub Finds : Plugin → Option Bytes → Plugin × Option Bytes → Type 0
Finds s o r = (r.1 ≡ o) × (r.0.cached ≡ o) × (r.0.avail ≡ s.avail) × (r.0.caps ≡ s.caps)

pub keep_version-Finds :
    (o : Option Bytes) (s : Plugin) → s.cached ≡ none → Finds s o (keep_version o s)
unfolding keep_version set_error Finds
keep_version-Finds none s h = (refl, h, refl, refl)
keep_version-Finds (some v) s h = (refl, refl, refl, refl)

pub run_version-Finds :
    (r : Result Bytes) (s : Plugin) → s.cached ≡ none → Finds s (output_version r) (run_version r s)
unfolding run_version output_version Finds
run_version-Finds (err e) s h = (refl, h, refl, refl)
run_version-Finds (ok out) s h =
    keep_version-Finds (first_version (strsplit_set (λ c. c == b'\n') out)) s h

pub probe_version-Finds :
    (versions : Versions) (s : Plugin) → Finds s (found versions s) (probe_version versions s)
unfolding probe_version found Finds
probe_version-Finds versions s = go s.cached refl
  where
    go :
        (o : Option Bytes)
        → s.cached ≡ o
        → Finds s
            (elim o [ none ↦ output_version (versions s.asked) | some v ↦ some v ])
            (elim o as (λ _. Plugin × Option Bytes) [
              | some v ↦ (s, some v)
              | none ↦ run_version (versions s.asked) (record s { asked = suc s.asked })
            ])
    go none e = run_version-Finds (versions s.asked) (record s { asked = suc s.asked }) e
    go (some v) e = (refl, e, refl, refl)

-- A question is answered by what is found, which is cached; it touches nothing else but the error and
-- the number of runs.
pub version_at_least-accepts :
    (versions : Versions) (major minor patch : ℕ) (s : Plugin)
    → ((version_at_least versions major minor patch s).1
        ≡ accepts major minor patch (found versions s))
      × ((version_at_least versions major minor patch s).0.cached ≡ found versions s)
      × ((version_at_least versions major minor patch s).0.avail ≡ s.avail)
      × ((version_at_least versions major minor patch s).0.caps ≡ s.caps)
unfolding version_at_least Finds
version_at_least-accepts versions major minor patch s =
    let r = probe_version versions s in
    let (answer, cached, avail, caps) = probe_version-Finds versions s in
    let (a, b, c, d) = judge_version-accepts major minor patch (r.0) (r.1) in
    (a ∙ ap (accepts major minor patch) answer, b ∙ cached, c ∙ avail, d ∙ caps)
