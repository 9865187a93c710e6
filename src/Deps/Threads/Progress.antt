-- ===== src/Deps/Threads/Progress.antt =====
-- The threads never wait for each other in a circle, and each is done after a bounded number of steps.
use libblockdev.Base.{
  ℕ, suc, ◌+◌, ◌-◌, ◌≤◌, ◌<◌, Option, none, some, Bool, true, ◌&&◌, ◌≡◌, ◌≢◌, refl, inl, inr, arith,
  if◌then◌else◌, ◌==◌, ==_iff, leb, Bool-cases, subst,
}
use libblockdev.Deps.{has_all, wanted}
use libblockdev.Deps.Threads
use libblockdev.Deps.Threads.{
  Phase, start, waiting, holding, looping, unlocked, returned, System, update, move,
}

module _ (req : ℕ → ℕ) (l_deps : ℕ) (probe : ℕ → Bool) where
  abbrev pub within : Phase → Bool
  within = Threads.inside req l_deps probe

  abbrev OneStep : System → System → Type 0
  OneStep = Threads.Step req l_deps probe

  -- Who holds the lock is between lock and unlock.
  abbrev IsHeld : System → Type 0
  IsHeld s = (t : ℕ) → s.holder ≡ some t → within (s.phase t) ≡ true

  free_of : (h : Option ℕ) (t u : ℕ) → h ≡ some t → h ≡ some u → t ≡ u
  free_of h t u e f = cc

  Step-IsHeld :
      {s s' : System} → OneStep s s' → Threads.IsExclusive req l_deps probe s → IsHeld s → IsHeld s'
  Step-IsHeld {s} (Threads.load_hit t p h) x held u e = ground (arith, held u e, ==_iff u t)
  Step-IsHeld {s} (Threads.load_miss t p h) x held u e = ground (arith, held u e, ==_iff u t)
  Step-IsHeld {s} (Threads.lock t p h) x held u e = ground (arith, ==_iff u t)
  Step-IsHeld {s} (Threads.reload_hit t p h) x held u e = cc
  Step-IsHeld {s} (Threads.reload_miss t p h) x held u e = ground (arith, held u e, ==_iff u t)
  Step-IsHeld {s} (Threads.probe_hit t k val p l w h) x held u e =
      ground (arith, held u e, ==_iff u t)
  Step-IsHeld {s} (Threads.probe_miss t k val p l h) x held u e =
      ground (arith, held u e, ==_iff u t)
  Step-IsHeld {s} (Threads.unlock t k val p l) x held u e = cc
  Step-IsHeld {s} (Threads.last_load t p) x held u e = ground (arith, held u e, ==_iff u t)

  -- From a start with the lock free, the lock is held by a thread that is inside, or by none.
  Reach-IsHeld :
      {s s' : System}
      → Threads.IsExclusive req l_deps probe s
      → IsHeld s
      → Threads.Reach req l_deps probe s s'
      → IsHeld s'
  Reach-IsHeld x held Threads.here = held
  Reach-IsHeld {s} x held (Threads.next r st) =
      Step-IsHeld st (Threads.Reach-IsExclusive req l_deps probe x r) (Reach-IsHeld x held r)

  -- A thread that is inside can take a step.
  inside_steps :
      (s : System) (t : ℕ) (p : Phase)
      → s.phase t ≡ p
      → within p ≡ true
      → (s' : System) × OneStep s s'
  inside_steps s t start e h = cc
  inside_steps s t waiting e h = cc
  inside_steps s t holding e h = elim (Bool-cases (has_all s.avail (req t))) [
    | inl hit ↦ (_, Threads.reload_hit t e hit)
    | inr miss ↦ (_, Threads.reload_miss t e miss)
  ]
  inside_steps s t (looping i val) e h = elim (Bool-cases (leb l_deps i)) [
    | inl end ↦ (_, Threads.unlock t i val e (ground arith))
    | inr more ↦ elim (Bool-cases (wanted i (req t) val && probe i)) [
      | inl hit ↦
          (_, Threads.probe_hit t i val e (ground arith) (both_left _ _ hit) (both_right _ _ hit))
      | inr miss ↦ (_, Threads.probe_miss t i val e (ground arith) miss)
    ]
  ]
    where
      both_left : (a b : Bool) → (a && b) ≡ true → a ≡ true
      both_left a b h = ground arith

      both_right : (a b : Bool) → (a && b) ≡ true → b ≡ true
      both_right a b h = ground arith
  inside_steps s t unlocked e h = cc
  inside_steps s t (returned b) e h = cc

  waiting_steps :
      (s : System) (t : ℕ) (h : Option ℕ)
      → s.holder ≡ h
      → s.phase t ≡ waiting
      → IsHeld s
      → (s' : System) × OneStep s s'
  waiting_steps s t none e p held = (_, Threads.lock t p e)
  waiting_steps s t (some u) e p held = inside_steps s u (s.phase u) refl (held u e)

  phase_steps :
      (s : System) (t : ℕ) (p : Phase)
      → s.phase t ≡ p
      → ((b : Bool) → p ≢ returned b)
      → IsHeld s
      → (s' : System) × OneStep s s'
  phase_steps s t start e h held = elim (Bool-cases (has_all s.avail (req t))) [
    | inl hit ↦ (_, Threads.load_hit t e hit)
    | inr miss ↦ (_, Threads.load_miss t e miss)
  ]
  phase_steps s t waiting e h held = waiting_steps s t s.holder refl e held
  phase_steps s t holding e h held = inside_steps s t holding e refl
  phase_steps s t (looping i val) e h held = inside_steps s t (looping i val) e refl
  phase_steps s t unlocked e h held = (_, Threads.last_load t e)
  phase_steps s t (returned b) e h held = absurd (h b refl)

  -- From calls that have not begun and with the lock free, however the threads are interleaved: as long
  -- as some thread has not returned, some thread can take a step.
  pub threads_progress :
      (s s' : System)
      → ((t : ℕ) → s.phase t ≡ start)
      → s.holder ≡ none
      → Threads.Reach req l_deps probe s s'
      → (t : ℕ) → ((b : Bool) → s'.phase t ≢ returned b)
      → (s'' : System) × Threads.Step req l_deps probe s' s''
  threads_progress s s' fresh free r t busy =
      phase_steps s' t (s'.phase t) refl busy
        (Reach-IsHeld {s = s} (λ v h. cc (fresh v, h)) (λ v h. cc (free, h)) r)

  -- How many steps a thread has before it at most.
  abbrev pub steps_left : Phase → ℕ
  steps_left start = l_deps + 5
  steps_left waiting = l_deps + 4
  steps_left holding = l_deps + 3
  steps_left (looping i val) = l_deps - i + 2
  steps_left unlocked = 1
  steps_left (returned b) = 0

  -- The thread that takes a step.
  abbrev pub mover : {s s' : System} → Threads.Step req l_deps probe s s' → ℕ
  mover (Threads.load_hit t p h) = t
  mover (Threads.load_miss t p h) = t
  mover (Threads.lock t p h) = t
  mover (Threads.reload_hit t p h) = t
  mover (Threads.reload_miss t p h) = t
  mover (Threads.probe_hit t i val p l w h) = t
  mover (Threads.probe_miss t i val p l h) = t
  mover (Threads.unlock t i val p l) = t
  mover (Threads.last_load t p) = t

  -- The steps of thread `u` in an execution.
  abbrev pub steps_of : ℕ → {s s' : System} → Threads.Reach req l_deps probe s s' → ℕ
  steps_of u Threads.here = 0
  steps_of u (Threads.next r st) = steps_of u r + (if u == mover st then 1 else 0)

  moved :
      (f : ℕ → Phase) (t : ℕ) (p : Phase) (u : ℕ)
      → steps_left p < steps_left (f t)
      → steps_left (update f t p u) + (if u == t then 1 else 0) ≤ steps_left (f u)
  moved f t p u h = elim (Bool-cases (u == t)) [
    | inl e ↦ rw ((==_iff u t).0 e) (ground (arith, h))
    | inr e ↦ rw e (omega arith)
  ]

  falls :
      {a : Phase} (b : Phase) (f : ℕ → Phase) (t : ℕ)
      → f t ≡ a
      → steps_left b < steps_left a
      → steps_left b < steps_left (f t)
  falls b f t e h = rw e h

  step_counts :
      {s s' : System} (st : OneStep s s') (u : ℕ)
      → steps_left (s'.phase u) + (if u == mover st then 1 else 0) ≤ steps_left (s.phase u)
  step_counts {s} (Threads.load_hit t p h) u =
      moved s.phase t (returned true) u (falls (returned true) s.phase t p (omega arith))
  step_counts {s} (Threads.load_miss t p h) u =
      moved s.phase t waiting u (falls waiting s.phase t p (omega arith))
  step_counts {s} (Threads.lock t p h) u =
      moved s.phase t holding u (falls holding s.phase t p (omega arith))
  step_counts {s} (Threads.reload_hit t p h) u =
      moved s.phase t (returned true) u (falls (returned true) s.phase t p (omega arith))
  step_counts {s} (Threads.reload_miss t p h) u =
      moved s.phase t (looping 0 s.avail) u (falls (looping 0 s.avail) s.phase t p (omega arith))
  step_counts {s} (Threads.probe_hit t i val p l w h) u =
      moved s.phase t (looping (suc i) val) u
        (falls (looping (suc i) val) s.phase t p (omega arith))
  step_counts {s} (Threads.probe_miss t i val p l h) u =
      moved s.phase t (looping (suc i) val) u
        (falls (looping (suc i) val) s.phase t p (omega arith))
  step_counts {s} (Threads.unlock t i val p l) u =
      moved s.phase t unlocked u (falls unlocked s.phase t p (omega arith))
  step_counts {s} (Threads.last_load t p) u =
      moved s.phase t (returned (has_all s.avail (req t))) u
        (falls (returned (has_all s.avail (req t))) s.phase t p (omega arith))

  Reach_counts :
      {s s' : System} (r : Threads.Reach req l_deps probe s s') (u : ℕ)
      → steps_left (s'.phase u) + steps_of u r ≤ steps_left (s.phase u)
  Reach_counts Threads.here u = omega arith
  Reach_counts (Threads.next r st) u = omega (arith, Reach_counts r u, step_counts st u)

  -- Each call is over after at most five steps more than there are dependencies, however the threads
  -- are interleaved; a thread that has taken that many has returned.
  pub threads_end :
      (s s' : System)
      → ((t : ℕ) → s.phase t ≡ start)
      → (r : Threads.Reach req l_deps probe s s') (t : ℕ)
      → (steps_of t r ≤ l_deps + 5)
        × (steps_of t r ≡ l_deps + 5 → (b : Bool) × (s'.phase t ≡ returned b))
  threads_end s s' fresh r t =
      let count : steps_left (s'.phase t) + steps_of t r ≤ l_deps + 5 =
        subst (λ p. steps_left (s'.phase t) + steps_of t r ≤ steps_left p) (fresh t)
          (Reach_counts r t) in
      (omega arith, λ all. over (s'.phase t) (omega arith))
    where
      over : (p : Phase) → steps_left p ≡ 0 → (b : Bool) × (p ≡ returned b)
      over start h = absurd (omega arith)
      over waiting h = absurd (omega arith)
      over holding h = absurd (omega arith)
      over (looping i val) h = absurd (omega arith)
      over unlocked h = absurd (omega arith)
      over (returned b) h = (b, refl)
