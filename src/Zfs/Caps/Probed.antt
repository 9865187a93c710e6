-- ===== src/Zfs/Caps/Probed.antt =====
-- The capabilities that are probed once.
use libblockdev.Base.{
  ℕ, ◌≤◌, none, some, Bool, true, false, Bytes, if◌then◌else◌, length, ◌≡◌, refl, sym, ap, ◌∙◌,
  arith, ◌⊎◌, inl, inr, ◌↔◌, subst,
}
use libblockdev.Zfs.Version.{Plugin, Versions, Caps, no_caps, scan_numbers}
use libblockdev.Zfs.Caps.{version_at_least, probe_runtime_caps, close, caps_of}
use libblockdev.Zfs.Caps.Questions.{
  AtLeast, newer_or_same_iff, accepts, found, version_at_least-accepts,
}

-- The capabilities are either not probed and all off, or the four that came with 0.8.0 agree.
abbrev pub IsConsistent : Caps → Type 0
IsConsistent c =
    (c ≡ no_caps)
    ⊎ ((c.probed ≡ true)
        × (c.trim_supported ≡ c.scrub_pause_supported)
        × (c.trim_supported ≡ c.encryption_supported)
        × (c.trim_supported ≡ c.initialize_supported))

Probed : Plugin → Plugin → Type 0
Probed s r =
    IsConsistent r.caps × (r.caps.probed ≡ true) × (r.error ≡ s.error) × (r.avail ≡ s.avail)

probe_runtime_caps-Probed :
    (versions : Versions) (s : Plugin)
    → IsConsistent s.caps
    → Probed s (probe_runtime_caps versions s)
unfolding probe_runtime_caps Probed
probe_runtime_caps-Probed versions s h = go s.caps.probed refl
  where
    first : Plugin × Bool
    first = version_at_least versions 0 6 4 (record s { error = none })

    t : Plugin
    t = record (first.0) { error = none }

    second : Plugin × Bool
    second = version_at_least versions 0 8 0 t

    go :
        (b : Bool)
        → s.caps.probed ≡ b
        → Probed s (
            if b
            then s
            else record (second.0) { error = s.error; caps = caps_of (first.1) (second.1) })
    go true e = (h, e, refl, refl)
    go false e =
        let (_, _, av1, _) = version_at_least-accepts versions 0 6 4 (record s { error = none }) in
        let (_, _, av2, _) = version_at_least-accepts versions 0 8 0 t in
        (inr (refl, refl, refl, refl), refl, refl, av2 ∙ av1)

probe_runtime_caps-probed :
    (versions : Versions) (s : Plugin) → s.caps.probed ≡ true → probe_runtime_caps versions s ≡ s
unfolding probe_runtime_caps
probe_runtime_caps-probed versions s h = go s.caps.probed _ h
  where
    go : (b : Bool) (x : Plugin) → b ≡ true → (if b then s else x) ≡ s
    go true x e = refl
    go false x e = cc

-- From consistent capabilities, probing leads to probed and consistent ones, does not touch the error
-- of the caller or the mask of the tools, and a second probe changes nothing; and closing the plugin
-- leads back to consistent capabilities.
pub probe_runtime_caps-IsConsistent :
    (versions : Versions) (s : Plugin)
    → IsConsistent s.caps
    → IsConsistent (probe_runtime_caps versions s).caps
      × ((probe_runtime_caps versions s).caps.probed ≡ true)
      × ((probe_runtime_caps versions s).error ≡ s.error)
      × ((probe_runtime_caps versions s).avail ≡ s.avail)
      × (probe_runtime_caps versions (probe_runtime_caps versions s)
          ≡ probe_runtime_caps versions s)
      × IsConsistent (close (probe_runtime_caps versions s)).caps
unfolding close Probed
probe_runtime_caps-IsConsistent versions s h =
    let (ok_caps, probed, same_error, same_avail) = probe_runtime_caps-Probed versions s h in
    (
      ok_caps,
      probed,
      same_error,
      same_avail,
      probe_runtime_caps-probed versions (probe_runtime_caps versions s) probed,
      inl refl,
    )

accepts_iff :
    (major minor patch : ℕ) (v : Bytes)
    → (accepts major minor patch (some v) ≡ true)
      ↔ ((2 ≤ length (scan_numbers 3 v)) × AtLeast major minor patch (scan_numbers 3 v))
unfolding accepts
accepts_iff major minor patch v = (
  λ h. grind (arith, newer_or_same_iff major minor patch (scan_numbers 3 v)),
  λ h. grind (arith, newer_or_same_iff major minor patch (scan_numbers 3 v)),
)

found_cached :
    (versions : Versions) (s : Plugin) {v : Bytes} → s.cached ≡ some v → found versions s ≡ some v
unfolding found
found_cached versions s h = rw h refl

-- With a version in the cache, a question is answered with yes exactly when at least two numbers are
-- read from that version and they are not below the ones asked for, compared in their order with a
-- missing third number taken as 0; whatever the answer, the cache stays, and an answer is given by
-- the cache alone: it is the same with any other answers.
version_at_least_iff :
    (versions other : Versions) (major minor patch : ℕ) (s : Plugin) {v : Bytes}
    → s.cached ≡ some v
    → (((version_at_least versions major minor patch s).1 ≡ true)
        ↔ ((2 ≤ length (scan_numbers 3 v)) × AtLeast major minor patch (scan_numbers 3 v)))
      × ((version_at_least versions major minor patch s).0.cached ≡ some v)
      × ((version_at_least versions major minor patch s).1
          ≡ (version_at_least other major minor patch s).1)
unfolding found
version_at_least_iff versions other major minor patch s {v} h =
    let (a, b, _, _) = version_at_least-accepts versions major minor patch s in
    let (c, _, _, _) = version_at_least-accepts other major minor patch s in
    let answer = λ (t : Versions). ap (accepts major minor patch) (found_cached t s h) in
    let yes' = a ∙ answer versions in
    (
      subst
          (λ x.
            (x ≡ true)
            ↔ ((2 ≤ length (scan_numbers 3 v)) × AtLeast major minor patch (scan_numbers 3 v)))
          (sym yes') (accepts_iff major minor patch v),
      b ∙ found_cached versions s h,
      yes' ∙ sym (c ∙ answer other),
    )
