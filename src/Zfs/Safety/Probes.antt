-- ===== src/Zfs/Safety/Probes.antt =====
-- What asking for the version leaves alone, and when it sets an error.
use libblockdev.Base.{
  ℕ, ◌≤◌, suc, none, some, Option, Bytes, Result, ok, err, ◌≡◌, ◌≢◌, refl, arith, ltb, length,
  Bool-cases, inl, inr, ◌==◌, strsplit_set, sym, subst, ◌∙◌,
}
use libblockdev.Zfs.Version.{
  Plugin, Versions, set_error, keep_version, run_version, probe_version, first_version,
  scan_numbers,
}
use libblockdev.Zfs.Caps.{judge_version, version_at_least, newer_or_same}
use libblockdev.Zfs.Caps.Late.{probe_version-le}
use libblockdev.Zfs.Caps.Probed.{IsConsistent}
use libblockdev.Zfs.Ops.{Env, World, zfs_mask, asking, answers, logged_versions}
use libblockdev.Zfs.Ops.Pools.{get_zfs_version}
use libblockdev.Zfs.Safety.Rules.{Asked, Asks, Sound, >>-Asks}
use libblockdev.Zfs.Safety.Steps.{tools-Checks, unasked}

-- What a question about the version does to the plugin: the capabilities stay, and with no error before
-- it, it has an answer exactly if it sets no error.
Answers : Plugin → Plugin × Option Bytes → Type 0
Answers s (t, none) = (t.caps ≡ s.caps) × (t.error ≢ none)
Answers s (t, some v) = (t.caps ≡ s.caps) × (t.error ≡ s.error)

keep_version-Answers : (o : Option Bytes) (s : Plugin) → Answers s (keep_version o s)
unfolding keep_version set_error Answers
keep_version-Answers none s = (refl, λ h. cc)
keep_version-Answers (some v) s = (refl, refl)

run_version-Answers : (r : Result Bytes) (s : Plugin) → Answers s (run_version r s)
unfolding run_version Answers
run_version-Answers (err e) s = (refl, λ h. cc)
run_version-Answers (ok output) s =
    keep_version-Answers (first_version (strsplit_set (λ c. c == b'\n') output)) s

probe_version-Answers : (versions : Versions) (s : Plugin) → Answers s (probe_version versions s)
unfolding probe_version Answers
probe_version-Answers versions s = known s.cached
  where
    known :
        (o : Option Bytes)
        → Answers s (elim o [
          | some v ↦ (s, some v)
          | none ↦ run_version (versions s.asked) (record s { asked = suc s.asked })
        ])
    known (some v) = (refl, refl)
    known none = run_version-Answers _ (record s { asked = suc s.asked })

judge_version-caps :
    (s : Plugin) (x : Plugin × Option Bytes)
    → x.0.caps ≡ s.caps
    → (judge_version 0 8 0 x).0.caps ≡ s.caps
unfolding judge_version set_error
judge_version-caps s (t, none) h = h
judge_version-caps s (t, some v) h = elim (Bool-cases (ltb (length (scan_numbers 3 v)) 2)) [
  | inl short ↦ rw short h
  | inr long ↦ rw long (elim (Bool-cases (newer_or_same 0 8 0 (scan_numbers 3 v))) [
    | inl newer ↦ rw newer h
    | inr older ↦ rw older h
  ])
]

Answers-caps : (s : Plugin) (x : Plugin × Option Bytes) → Answers s x → x.0.caps ≡ s.caps
unfolding Answers
Answers-caps s (t, none) a = a.0
Answers-caps s (t, some v) a = a.0

pub version_at_least-caps :
    (versions : Versions) (s : Plugin) → (version_at_least versions 0 8 0 s).0.caps ≡ s.caps
unfolding version_at_least
version_at_least-caps versions s =
    judge_version-caps s (probe_version versions s)
      (Answers-caps s (probe_version versions s) (probe_version-Answers versions s))

once : {n : ℕ} → n ≤ suc 0 → n ≤ 2
once h = omega arith

logged_Asked :
    (w : World) (x : Plugin × Option Bytes)
    → w.plugin.error ≡ none
    → Answers (unasked w.plugin) x
    → (x.0.asked ≤ 2)
    → Asked {A = Bytes} w.calls (logged_versions w x)
unfolding Answers
logged_Asked w (s, none) clean a few = ((s.asked, few, refl), a.1)
logged_Asked w (s, some v) clean a few = ((s.asked, few, refl), a.1 ∙ clean)

logged_Sound :
    (w : World) (x : Plugin × Option Bytes)
    → Answers (unasked w.plugin) x
    → Sound w
    → Sound (logged_versions w x).0
unfolding Answers
logged_Sound w (s, none) a h = subst IsConsistent (sym a.0) h
logged_Sound w (s, some v) a h = subst IsConsistent (sym a.0) h

-- Asking for the version runs nothing but `zfs version`, and has an answer exactly if it sets no error.
pub get_zfs_version-Asks : (env : Env) → Asks (get_zfs_version env)
unfolding get_zfs_version asking
get_zfs_version-Asks env = >>-Asks (tools-Checks env zfs_mask (omega arith)) (record {
  holds = λ w clean.
      logged_Asked w _ clean (probe_version-Answers (answers env w.calls) (unasked w.plugin))
        (once (probe_version-le (answers env w.calls) (unasked w.plugin)));
  keeps = λ w clean s.
      logged_Sound w _ (probe_version-Answers (answers env w.calls) (unasked w.plugin)) s;
})
