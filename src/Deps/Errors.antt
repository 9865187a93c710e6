-- ===== src/Deps/Errors.antt =====
-- The error of a check is set exactly if the check fails.
use libblockdev.Base.Bits.{bit}
use libblockdev.Base.{
  ℕ, suc, ◌+◌, ◌≤◌, ◌<◌, Option, none, some, List, [], ◌∷◌, Bool, true, false, ◌≡◌, ◌≢◌, refl, ap,
  sym, ◌∙◌, ◌⊎◌, inl, inr, arith, if◌then◌else◌, ◌==◌, Code, Bool-cases, length, ==_iff, Bytes,
  GError, ◌↔◌,
}
use libblockdev.Deps.Loop.{is_found, wanted_lem, found_from, check_all_iff}
use libblockdev.Deps.{
  Outcome, found, missing, State, note_missing, record_outcome, wanted, check_loop, has_all,
  check_all,
}

-- A probe that fails gives a message.
abbrev pub Explains {ℓ} : {D : Type ℓ} → (D → Outcome) → Type ℓ
Explains {D} attempt = (d : D) → attempt d ≢ missing none

found_from_later {ℓ} :
    {D : Type ℓ} (attempt : D → Outcome) (i : ℕ) (ds : List D) (j : ℕ)
    → j < i
    → found_from attempt i ds j ≡ false
found_from_later attempt i [] j h = refl
found_from_later attempt i (d ∷ ds) j h = ground (arith, found_from_later attempt (suc i) ds j)

note_missing-ne-none : (c : Code) (m : Bytes) (o : Option GError) → note_missing c m o ≢ none
unfolding note_missing
note_missing-ne-none c m none = λ e. cc
note_missing-ne-none c m (some x) = λ e. cc

record_outcome_keeps :
    (c : Code) (o : Outcome) (i : ℕ) (s : State)
    → s.error ≢ none
    → (record_outcome c i o s).error ≢ none
unfolding record_outcome
record_outcome_keeps c found i s h = h
record_outcome_keeps c (missing none) i s h = h
record_outcome_keeps c (missing (some m)) i s h = note_missing-ne-none c m s.error

record_outcome_explained :
    (c : Code) (o : Outcome) (i : ℕ) (s : State)
    → is_found o ≡ false
    → o ≢ missing none
    → (record_outcome c i o s).error ≢ none
unfolding record_outcome
record_outcome_explained c found i s f h = cc
record_outcome_explained c (missing none) i s f h = absurd (h refl)
record_outcome_explained c (missing (some m)) i s f h = note_missing-ne-none c m s.error

record_outcome_found :
    (c : Code) (o : Outcome) (i : ℕ) (s : State)
    → is_found o ≡ true
    → (record_outcome c i o s).error ≡ s.error
unfolding record_outcome
record_outcome_found c found i s f = refl
record_outcome_found c (missing m) i s f = cc

module _ {ℓ} {D : Type ℓ} (c : Code) (attempt : D → Outcome) (req val : ℕ) where
  step_error-ne-none :
      (i : ℕ) (d : D) (s : State)
      → s.error ≢ none
      → (if wanted i req val then record_outcome c i (attempt d) s else s).error ≢ none
  step_error-ne-none i d s h = elim (Bool-cases (wanted i req val)) [
    | inl w ↦ rw w (record_outcome_keeps c (attempt d) i s h)
    | inr w ↦ rw w h
  ]

  check_loop-ne-none :
      (i : ℕ) (ds : List D) (s : State)
      → s.error ≢ none
      → (check_loop c attempt req val i ds s).error ≢ none
  unfolding check_loop
  check_loop-ne-none i [] s h = h
  check_loop-ne-none i (d ∷ ds) s h =
      check_loop-ne-none (suc i) ds
        (if wanted i req val then record_outcome c i (attempt d) s else s)
        (step_error-ne-none i d s h)

  step_explained :
      (i : ℕ) (d : D) (s : State)
      → wanted i req val ≡ true
      → is_found (attempt d) ≡ false
      → attempt d ≢ missing none
      → (if wanted i req val then record_outcome c i (attempt d) s else s).error ≢ none
  step_explained i d s w f h = rw w (record_outcome_explained c (attempt d) i s f h)

  -- A required dependency that the loop does not find leaves an error.
  check_loop_error :
      (i : ℕ) (ds : List D) (s : State) (j : ℕ)
      → Explains attempt
      → i ≤ j
      → j < i + length ds
      → wanted j req val ≡ true
      → found_from attempt i ds j ≡ false
      → (check_loop c attempt req val i ds s).error ≢ none
  unfolding check_loop
  check_loop_error i [] s j ex lo hi w f = absurd (omega arith)
  check_loop_error i (d ∷ ds) s j ex lo hi w f = elim (Bool-cases (j == i)) [
    | inl e ↦
        let w' : wanted i req val ≡ true =
          ap (λ k. wanted k req val) (sym ((==_iff j i).0 e)) ∙ w in
        let missed : is_found (attempt d) ≡ false = ground (arith, e) in
        check_loop-ne-none (suc i) ds
          (if wanted i req val then record_outcome c i (attempt d) s else s)
          (step_explained i d s w' missed (ex d))
    | inr e ↦
        check_loop_error (suc i) ds
          (if wanted i req val then record_outcome c i (attempt d) s else s) j ex
          (ground (arith, e)) (omega arith) w (ground (arith, e))
  ]

  step_clean :
      (i : ℕ) (d : D) (ds : List D) (s : State)
      → (wanted i req val ≡ true → found_from attempt i (d ∷ ds) i ≡ true)
      → (if wanted i req val then record_outcome c i (attempt d) s else s).error ≡ s.error
  step_clean i d ds s h = elim (Bool-cases (wanted i req val)) [
    | inl w ↦ rw w (
        record_outcome_found c (attempt d) i s
          (ground (arith, h w, found_from_later attempt (suc i) ds i (omega arith))))
    | inr w ↦ rw w refl
  ]

  -- Where all that is wanted is found, the error stays as it was.
  check_loop_clean :
      (i : ℕ) (ds : List D) (s : State)
      → ((j : ℕ)
          → i ≤ j
          → j < i + length ds
          → wanted j req val ≡ true
          → found_from attempt i ds j ≡ true)
      → (check_loop c attempt req val i ds s).error ≡ s.error
  unfolding check_loop
  check_loop_clean i [] s h = refl
  check_loop_clean i (d ∷ ds) s h =
      check_loop_clean (suc i) ds (if wanted i req val then record_outcome c i (attempt d) s else s)
        (λ j lo hi w.
          let found_j = h j (omega arith) (omega arith) w in ground (arith, found_j, lo))
      ∙ step_clean i d ds s (λ w. h i (omega arith) (omega arith) w)

wanted_of : (j req val : ℕ) → bit j req ≡ true → bit j val ≡ false → wanted j req val ≡ true
wanted_of j req val r v = wanted_lem j req val ∙ rw (r, v) refl

bits_of_wanted :
    (j req val : ℕ) → wanted j req val ≡ true → (bit j req ≡ true) × (bit j val ≡ false)
bits_of_wanted j req val w = ground (arith, wanted_lem j req val)

module _ {ℓ} {D : Type ℓ} (c : Code) (attempt : D → Outcome) (req : ℕ) (ds : List D)
    (s : State) where
  -- Without an error all that is required is there.
  all_found :
      Explains attempt
      → ((j : ℕ) → bit j req ≡ true → j < length ds)
      → (check_loop c attempt req s.avail 0 ds s).error ≡ none
      → (j : ℕ) → bit j req ≡ true
      → (bit j s.avail ≡ true) ⊎ (found_from attempt 0 ds j ≡ true)
  all_found ex listed e j r = elim (Bool-cases (bit j s.avail)) [
    | inl a ↦ inl a
    | inr a ↦ elim (Bool-cases (found_from attempt 0 ds j)) [
      | inl f ↦ inr f
      | inr f ↦ absurd (
          check_loop_error c attempt req s.avail 0 ds s j ex (omega arith)
            (omega (arith, listed j r)) (wanted_of j req s.avail r a) f e)
    ]
  ]

  -- Where all that is required is there, there is no new error.
  no_error :
      ((j : ℕ) → bit j req ≡ true → (bit j s.avail ≡ true) ⊎ (found_from attempt 0 ds j ≡ true))
      → (check_loop c attempt req s.avail 0 ds s).error ≡ s.error
  no_error h = check_loop_clean c attempt req s.avail 0 ds s λ j lo hi w.
      let (r, v) = bits_of_wanted j req s.avail w in
      let found_j = h j r in ground (arith, v, found_j)

  check_all_busy :
      has_all s.avail req ≡ false
      → (check_all c attempt req ds s).0.error ≡ (check_loop c attempt req s.avail 0 ds s).error
  unfolding check_all
  check_all_busy h = rw h refl

  pub check_all_idle : has_all s.avail req ≡ true → check_all c attempt req ds s ≡ (s, true)
  unfolding check_all
  check_all_idle h = rw h refl

-- Where the probes explain their failures, every required dependency is in the list and no error was
-- set before the call, an error is set behind it exactly if it fails.
pub check_all_error {ℓ} :
    {D : Type ℓ} (c : Code) (attempt : D → Outcome) (req : ℕ) (ds : List D) (s : State)
    → Explains attempt
    → ((j : ℕ) → bit j req ≡ true → j < length ds)
    → s.error ≡ none
    → ((check_all c attempt req ds s).1 ≡ false) ↔ ((check_all c attempt req ds s).0.error ≢ none)
check_all_error c attempt req ds s ex listed clean = elim (Bool-cases (has_all s.avail req)) [
  | inl h ↦
      let idle = check_all_idle c attempt req ds s h in
      (λ f. cc (idle, f), λ ne. absurd (ne (ap (λ (r : State × Bool). r.0.error) idle ∙ clean)))
  | inr h ↦
      let busy = check_all_busy c attempt req ds s h in
      (
        λ f e.
            let succeeds =
              (check_all_iff c attempt req ds s).1
                (all_found c attempt req ds s ex listed (sym busy ∙ e)) in
            cc (succeeds, f),
        λ ne. elim (Bool-cases (check_all c attempt req ds s).1) [
          | inl t ↦ absurd (
              ne (
                busy
                ∙ (no_error c attempt req ds s ((check_all_iff c attempt req ds s).0 t) ∙ clean)))
          | inr f ↦ f
        ],
      )
]
