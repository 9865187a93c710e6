-- ===== src/Deps/Threads.antt =====
-- Calls from several threads: they share the mask and the mutex, and may be interleaved at every
-- access to these. Each step is one atomic access of one thread.
pub mod Progress
use libblockdev.Base.Bits.{bit, bit-or, bit-pow, has_mask_iff}
use libblockdev.Base.{
  ℕ, suc, ◌^◌, ◌≤◌, ◌<◌, Option, none, some, Bool, true, false, ◌&&◌, ◌≡◌, ap, ◌∙◌, ◌⊎◌, inl, inr,
  arith, if◌then◌else◌, ◌==◌, ==_iff, Bool-cases,
}
use Prim.Native.Nat.{bit_or}
use libblockdev.Deps.{has_all, wanted}

-- Where a thread stands in the function; `looping i val` is before the test of dependency `i`.
pub data Phase : Type 0 where
  start waiting holding : Phase
  looping : ℕ → ℕ → Phase
  unlocked : Phase
  returned : Bool → Phase

pub record System : Type 0 where
  pub avail : ℕ
  pub holder : Option ℕ
  pub phase : ℕ → Phase

abbrev pub update : (ℕ → Phase) → ℕ → Phase → ℕ → Phase
update f t p u = if u == t then p else f u

abbrev pub move : System → ℕ → Phase → System
move s t p = record s { phase = update s.phase t p }

module _ (req : ℕ → ℕ) (l_deps : ℕ) (probe : ℕ → Bool) where
  -- One access of thread `t`: the first load, the lock, the load under it, one round of the loop, the
  -- unlock, the last load.
  pub data Step : System → System → Type 0 where
    load_hit :
        {s : System} (t : ℕ)
        → s.phase t ≡ start
        → has_all s.avail (req t) ≡ true
        → Step s (move s t (returned true))
    load_miss :
        {s : System} (t : ℕ)
        → s.phase t ≡ start
        → has_all s.avail (req t) ≡ false
        → Step s (move s t waiting)
    lock :
        {s : System} (t : ℕ)
        → s.phase t ≡ waiting
        → s.holder ≡ none
        → Step s (record (move s t holding) { holder = some t })
    reload_hit :
        {s : System} (t : ℕ)
        → s.phase t ≡ holding
        → has_all s.avail (req t) ≡ true
        → Step s (record (move s t (returned true)) { holder = none })
    reload_miss :
        {s : System} (t : ℕ)
        → s.phase t ≡ holding
        → has_all s.avail (req t) ≡ false
        → Step s (move s t (looping 0 s.avail))
    probe_hit :
        {s : System} (t i val : ℕ)
        → s.phase t ≡ looping i val
        → i < l_deps
        → wanted i (req t) val ≡ true
        → probe i ≡ true
        → Step s (record (move s t (looping (suc i) val)) { avail = bit_or s.avail (2 ^ i) })
    probe_miss :
        {s : System} (t i val : ℕ)
        → s.phase t ≡ looping i val
        → i < l_deps
        → (wanted i (req t) val && probe i) ≡ false
        → Step s (move s t (looping (suc i) val))
    unlock :
        {s : System} (t i val : ℕ)
        → s.phase t ≡ looping i val
        → l_deps ≤ i
        → Step s (record (move s t unlocked) { holder = none })
    last_load :
        {s : System} (t : ℕ)
        → s.phase t ≡ unlocked
        → Step s (move s t (returned (has_all s.avail (req t))))

  pub data Reach (s : System) : System → Type 0 where
    here : Reach s s
    next : {t u : System} → Reach s t → Step t u → Reach s u

  -- What holds in every state that the threads reach: a thread that returned TRUE has all that it
  -- requires, and a set bit was set at the beginning or belongs to a dependency that was found.
  pub record IsSound (first : ℕ) (s : System) : Type 0 where
    pub kept : (t : ℕ) → s.phase t ≡ returned true → has_all s.avail (req t) ≡ true
    pub earned : (j : ℕ) → bit j s.avail ≡ true → (bit j first ≡ true) ⊎ (probe j ≡ true)

  -- At most the holder of the lock is between lock and unlock.
  abbrev pub inside : Phase → Bool
  inside holding = true
  inside (looping i val) = true
  inside _ = false

  abbrev pub IsExclusive : System → Type 0
  IsExclusive s = (t : ℕ) → inside (s.phase t) ≡ true → s.holder ≡ some t

  Step-IsExclusive : {s s' : System} → Step s s' → IsExclusive s → IsExclusive s'
  Step-IsExclusive {s} (load_hit t p h) x u i = ground (arith, x u)
  Step-IsExclusive {s} (load_miss t p h) x u i = ground (arith, x u)
  Step-IsExclusive {s} (lock t p h) x u i = ground (arith, x u, ==_iff u t)
  Step-IsExclusive {s} (reload_hit t p h) x u i = ground (arith, x u, x t, ==_iff u t)
  Step-IsExclusive {s} (reload_miss t p h) x u i = ground (arith, x u, x t, ==_iff u t)
  Step-IsExclusive {s} (probe_hit t k val p l w h) x u i = ground (arith, x u, x t, ==_iff u t)
  Step-IsExclusive {s} (probe_miss t k val p l h) x u i = ground (arith, x u, x t, ==_iff u t)
  Step-IsExclusive {s} (unlock t k val p l) x u i = ground (arith, x u, x t, ==_iff u t)
  Step-IsExclusive {s} (last_load t p) x u i = ground (arith, x u)

  -- Setting one more bit keeps all that was there.
  has_all-or : (x m i : ℕ) → has_all x m ≡ true → has_all (bit_or x (2 ^ i)) m ≡ true
  has_all-or x m i h =
      (has_mask_iff (bit_or x (2 ^ i)) m).1
        λ j b. let kept = (has_mask_iff x m).0 h j b in ground (arith, bit-or j x (2 ^ i), kept)

  bit-or_found :
      (x i j : ℕ)
      → probe i ≡ true
      → bit j (bit_or x (2 ^ i)) ≡ true
      → (bit j x ≡ true) ⊎ (probe j ≡ true)
  bit-or_found x i j f h = elim (Bool-cases (j == i)) [
    | inl e ↦ inr (ap probe ((==_iff j i).0 e) ∙ f)
    | inr e ↦ inl (ground (arith, bit-or j x (2 ^ i), bit-pow j i, e))
  ]

  update_returned :
      (f : ℕ → Phase) (t : ℕ) (p : Phase) (u : ℕ)
      → update f t p u ≡ returned true
      → ((u ≡ t) × (p ≡ returned true)) ⊎ (f u ≡ returned true)
  update_returned f t p u r = elim (Bool-cases (u == t)) [
    | inl e ↦ inl ((==_iff u t).0 e, (rw e at r))
    | inr e ↦ inr (rw e at r)
  ]

  has_all_at : (x : ℕ) {u t : ℕ} → u ≡ t → has_all x (req t) ≡ true → has_all x (req u) ≡ true
  has_all_at x e h = ap (λ v. has_all x (req v)) e ∙ h

  returned_true : (b : Bool) → returned b ≡ returned true → b ≡ true
  returned_true b e = cc

  Step-kept :
      {s s' : System}
      → Step s s'
      → ((t : ℕ) → s.phase t ≡ returned true → has_all s.avail (req t) ≡ true)
      → (u : ℕ) → s'.phase u ≡ returned true
      → has_all s'.avail (req u) ≡ true
  Step-kept {s} (load_hit t p h) k u r = elim (update_returned s.phase t (returned true) u r) [
    | inl (e, q) ↦ has_all_at s.avail e h
    | inr old ↦ k u old
  ]
  Step-kept {s} (load_miss t p h) k u r = ground (arith, k u)
  Step-kept {s} (lock t p h) k u r = ground (arith, k u)
  Step-kept {s} (reload_hit t p h) k u r = elim (update_returned s.phase t (returned true) u r) [
    | inl (e, q) ↦ has_all_at s.avail e h
    | inr old ↦ k u old
  ]
  Step-kept {s} (reload_miss t p h) k u r = ground (arith, k u)
  Step-kept {s} (probe_hit t i val p l w h) k u r =
      elim (update_returned s.phase t (looping (suc i) val) u r) [
        | inl (e, q) ↦ cc q
        | inr old ↦ has_all-or s.avail (req u) i (k u old)
      ]
  Step-kept {s} (probe_miss t i val p l h) k u r = ground (arith, k u)
  Step-kept {s} (unlock t i val p l) k u r = ground (arith, k u)
  Step-kept {s} (last_load t p) k u r =
      elim (update_returned s.phase t (returned (has_all s.avail (req t))) u r) [
        | inl (e, q) ↦ has_all_at s.avail e (returned_true (has_all s.avail (req t)) q)
        | inr old ↦ k u old
      ]

  Step-earned :
      {s s' : System} (first : ℕ)
      → Step s s'
      → ((j : ℕ) → bit j s.avail ≡ true → (bit j first ≡ true) ⊎ (probe j ≡ true))
      → (j : ℕ) → bit j s'.avail ≡ true
      → (bit j first ≡ true) ⊎ (probe j ≡ true)
  Step-earned {s} first (probe_hit t i val p l w h) k j b = elim (bit-or_found s.avail i j h b) [
    | inl old ↦ k j old
    | inr new ↦ inr new
  ]
  Step-earned first (load_hit t p h) k j b = k j b
  Step-earned first (load_miss t p h) k j b = k j b
  Step-earned first (lock t p h) k j b = k j b
  Step-earned first (reload_hit t p h) k j b = k j b
  Step-earned first (reload_miss t p h) k j b = k j b
  Step-earned first (probe_miss t i val p l h) k j b = k j b
  Step-earned first (unlock t i val p l) k j b = k j b
  Step-earned first (last_load t p) k j b = k j b

  Reach-IsSound : (first : ℕ) {s s' : System} → IsSound first s → Reach s s' → IsSound first s'
  Reach-IsSound first h here = h
  Reach-IsSound first h (next r st) =
      let v = Reach-IsSound first h r in
      record { kept = Step-kept st v.kept; earned = Step-earned first st v.earned }

  -- However the threads are interleaved: a thread that has returned TRUE requires only dependencies
  -- that were known before all the calls, or that the probe of some thread found; and it stays true
  -- afterwards that all of them are in the mask.
  pub threads_sound :
      (s s' : System)
      → ((t : ℕ) → s.phase t ≡ start)
      → Reach s s'
      → (t : ℕ) → s'.phase t ≡ returned true
      → (has_all s'.avail (req t) ≡ true)
        × ((j : ℕ) → bit j (req t) ≡ true → (bit j s.avail ≡ true) ⊎ (probe j ≡ true))
  threads_sound s s' fresh r t done =
      let v =
        Reach-IsSound s.avail {s = s}
          (record { kept = λ u h. cc (fresh u, h); earned = λ j b. inl b }) r in
      let all = v.kept t done in
      (all, λ j b. v.earned j ((has_mask_iff s'.avail (req t)).0 all j b))

  pub Reach-IsExclusive : {s s' : System} → IsExclusive s → Reach s s' → IsExclusive s'
  Reach-IsExclusive h here = h
  Reach-IsExclusive h (next r st) = Step-IsExclusive st (Reach-IsExclusive h r)

  -- However the threads are interleaved, two of them are never both between lock and unlock.
  pub threads_exclusive :
      (s s' : System)
      → ((t : ℕ) → s.phase t ≡ start)
      → Reach s s'
      → (t u : ℕ) → inside (s'.phase t) ≡ true
      → inside (s'.phase u) ≡ true
      → t ≡ u
  threads_exclusive s s' fresh r t u a b =
      let x = Reach-IsExclusive {s = s} (λ v h. cc (fresh v, h)) r in cc (x t a, x u b)
