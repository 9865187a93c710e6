-- ===== src/Zfs/Caps/Late.antt =====
-- src/plugins/zfs.c: how often `zfs version` is run by a question; and a run that fails, with one behind
-- it that does not.
use libblockdev.Base.{
  ℕ, suc, ◌+◌, ◌≤◌, arith, subst, if◌then◌else◌, sym, Option, none, some, Bool, true, false, Bytes,
  length, ltb, Result, ok, err, ◌≡◌, refl, ap, ◌∙◌, inl, inr, Bool-cases, strsplit_set, ◌==◌,
}
use libblockdev.Zfs.Version.{
  Plugin, Versions, probe_version, run_version, keep_version, set_error, first_version,
  scan_numbers,
}
use libblockdev.Zfs.Caps.{
  version_at_least, judge_version, newer_or_same, probe_runtime_caps, caps_of,
}
use libblockdev.Zfs.Caps.Questions.{accepts, found, output_version, version_at_least-accepts}

keep_version-asked : (o : Option Bytes) (s : Plugin) → (keep_version o s).0.asked ≡ s.asked
unfolding keep_version set_error
keep_version-asked none s = refl
keep_version-asked (some v) s = refl

run_version-asked : (r : Result Bytes) (s : Plugin) → (run_version r s).0.asked ≡ s.asked
unfolding run_version
run_version-asked (err e) s = refl
run_version-asked (ok out) s =
    keep_version-asked (first_version (strsplit_set (λ c. c == b'\n') out)) s

judge_version-asked :
    (major minor patch : ℕ) (s : Plugin) (o : Option Bytes)
    → (judge_version major minor patch (s, o)).0.asked ≡ s.asked
unfolding judge_version set_error
judge_version-asked major minor patch s none = refl
judge_version-asked major minor patch s (some v) =
    elim (Bool-cases (ltb (length (scan_numbers 3 v)) 2)) [
      | inl e ↦ rw e refl
      | inr e ↦ elim (Bool-cases (newer_or_same major minor patch (scan_numbers 3 v))) [
        | inl f ↦ rw (e, f) refl
        | inr f ↦ rw (e, f) refl
      ]
    ]

probe_version-asked :
    (versions : Versions) (s : Plugin)
    → s.cached ≡ none
    → (probe_version versions s).0.asked ≡ suc s.asked
unfolding probe_version
probe_version-asked versions s h = go s.cached h
  where
    go :
        (o : Option Bytes)
        → o ≡ none
        → (elim o as (λ _. Plugin × Option Bytes) [
          | some v ↦ (s, some v)
          | none ↦ run_version (versions s.asked) (record s { asked = suc s.asked })
        ]).0.asked
          ≡ suc s.asked
    go none e = run_version-asked (versions s.asked) (record s { asked = suc s.asked })
    go (some v) e = cc

-- Without a version in the cache, a question runs `zfs version` once.
version_at_least-asked :
    (versions : Versions) (major minor patch : ℕ) (s : Plugin)
    → s.cached ≡ none
    → (version_at_least versions major minor patch s).0.asked ≡ suc s.asked
unfolding version_at_least
version_at_least-asked versions major minor patch s h =
    judge_version-asked major minor patch (probe_version versions s).0 (probe_version versions s).1
    ∙ probe_version-asked versions s h

pub probe_version-le :
    (versions : Versions) (s : Plugin) → (probe_version versions s).0.asked ≤ suc s.asked
unfolding probe_version
probe_version-le versions s = go s.cached
  where
    go :
        (o : Option Bytes)
        → (elim o as (λ _. Plugin × Option Bytes) [
          | some v ↦ (s, some v)
          | none ↦ run_version (versions s.asked) (record s { asked = suc s.asked })
        ]).0.asked
          ≤ suc s.asked
    go none =
        let e = run_version-asked (versions s.asked) (record s { asked = suc s.asked }) in
        omega (arith, e)
    go (some v) = omega arith

-- A question runs it at most once.
pub version_at_least-le :
    (versions : Versions) (major minor patch : ℕ) (s : Plugin)
    → (version_at_least versions major minor patch s).0.asked ≤ suc s.asked
unfolding version_at_least
version_at_least-le versions major minor patch s =
    let e =
      judge_version-asked major minor patch (probe_version versions s).0
        (probe_version versions s).1 in
    let h = probe_version-le versions s in subst (λ n. n ≤ suc s.asked) (sym e) h

-- A probe runs it at most twice.
pub probe_runtime_caps-le :
    (versions : Versions) (s : Plugin) → (probe_runtime_caps versions s).asked ≤ s.asked + 2
unfolding probe_runtime_caps
probe_runtime_caps-le versions s = go s.caps.probed
  where
    first : Plugin × Bool
    first = version_at_least versions 0 6 4 (record s { error = none })

    t : Plugin
    t = record (first.0) { error = none }

    second : Plugin × Bool
    second = version_at_least versions 0 8 0 t

    go :
        (b : Bool)
        → (if b
            then s
            else record (second.0) { error = s.error; caps = caps_of (first.1) (second.1) }).asked
          ≤ s.asked + 2
    go true = omega arith
    go false =
        let a : first.0.asked ≤ suc s.asked =
          version_at_least-le versions 0 6 4 (record s { error = none }) in
        let b : second.0.asked ≤ suc first.0.asked = version_at_least-le versions 0 8 0 t in
        omega (arith, a, b)

found_uncached :
    (versions : Versions) (s : Plugin) (n : ℕ)
    → s.cached ≡ none
    → s.asked ≡ n
    → found versions s ≡ output_version (versions n)
unfolding found
found_uncached versions s n h e = rw (h, e) refl

-- Where the capabilities are not probed and no version is cached, the first of the two runs of `zfs
-- version` gives no version, and the second one that is 0.8.0 or newer: bookmarks, which came before
-- that, are taken as not supported, all the others as supported, and it stays so in every later probe.
probe_runtime_caps_late :
    (versions later : Versions) (s : Plugin)
    → s.caps.probed ≡ false
    → s.cached ≡ none
    → output_version (versions s.asked) ≡ none
    → accepts 0 8 0 (output_version (versions (suc s.asked))) ≡ true
    → ((probe_runtime_caps versions s).caps ≡ caps_of false true)
      × (probe_runtime_caps later (probe_runtime_caps versions s) ≡ probe_runtime_caps versions s)
unfolding probe_runtime_caps accepts
probe_runtime_caps_late versions later s fresh empty fails works = rw fresh (caps_are, refl)
  where
    s' : Plugin
    s' = record s { error = none }

    first : Plugin × Bool
    first = version_at_least versions 0 6 4 s'

    t : Plugin
    t = record (first.0) { error = none }

    nothing_found : found versions s' ≡ none
    nothing_found = found_uncached versions s' s.asked empty refl ∙ fails

    second_found : found versions t ≡ output_version (versions (suc s.asked))
    second_found =
        found_uncached versions t (suc s.asked)
          ((version_at_least-accepts versions 0 6 4 s').1 ∙ nothing_found)
          (version_at_least-asked versions 0 6 4 s' empty)

    bm : first.1 ≡ false
    bm = (version_at_least-accepts versions 0 6 4 s').0 ∙ ap (accepts 0 6 4) nothing_found

    v080 : (version_at_least versions 0 8 0 t).1 ≡ true
    v080 = (version_at_least-accepts versions 0 8 0 t).0 ∙ ap (accepts 0 8 0) second_found ∙ works

    caps_are : caps_of (first.1) ((version_at_least versions 0 8 0 t).1) ≡ caps_of false true
    caps_are =
        ap (λ b. caps_of b ((version_at_least versions 0 8 0 t).1)) bm ∙ ap (caps_of false) v080
