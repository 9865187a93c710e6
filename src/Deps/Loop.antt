-- ===== src/Deps/Loop.antt =====
-- What the loop finds out, bit by bit, for any kind of dependency.
use libblockdev.Base.Bits.{bit, bit-or, bit-pow, bit_and-pow, has_mask_iff}
use libblockdev.Base.{
  ℕ, suc, ◌^◌, none, some, List, [], ◌∷◌, Bool, true, false, not, ◌&&◌, ◌||◌, ◌≡◌, refl, ap, sym,
  ◌∙◌, ◌⊎◌, inl, inr, ◌↔◌, arith, if◌then◌else◌, ◌==◌, Code, Bool-cases, ==_iff,
}
use libblockdev.Deps.{
  Outcome, found, missing, State, record_outcome, wanted, check_loop, has_all, check_all,
}

abbrev pub is_found : Outcome → Bool
is_found found = true
is_found (missing m) = false

pub wanted_lem : (i req val : ℕ) → wanted i req val ≡ (bit i req && not (bit i val))
unfolding wanted
wanted_lem i req val = ground (arith, bit_and-pow i req, bit_and-pow i val)

-- Whether dependency `j` is in the list that starts with dependency `i`, and its probe finds it.
abbrev pub found_from {ℓ} : {D : Type ℓ} → (D → Outcome) → ℕ → List D → ℕ → Bool
found_from attempt i [] j = false
found_from attempt i (d ∷ ds) j =
    (j == i && is_found (attempt d)) || found_from attempt (suc i) ds j

module _ {ℓ} {D : Type ℓ} (c : Code) (attempt : D → Outcome) (req val : ℕ) where
  bit-record_outcome :
      (i j : ℕ) (o : Outcome) (s : State)
      → bit j (record_outcome c i o s).avail ≡ (bit j s.avail || (j == i && is_found o))
  unfolding record_outcome
  bit-record_outcome i j found s = ground (arith, bit-or j s.avail (2 ^ i), bit-pow j i)
  bit-record_outcome i j (missing none) s = ground arith
  bit-record_outcome i j (missing (some m)) s = ground arith

  step_state : ℕ → D → State → State
  step_state i d s = if wanted i req val then record_outcome c i (attempt d) s else s

  bit-step_state :
      (i j : ℕ) (d : D) (s : State)
      → bit j (step_state i d s).avail
        ≡ (bit j s.avail || (bit j req && (not (bit j val) && (j == i && is_found (attempt d)))))
  unfolding step_state
  bit-step_state i j d s = elim (Bool-cases (j == i)) [
    | inl e ↦ ground (
      arith,
      ap (λ k. bit k req) ((==_iff j i).0 e),
      ap (λ k. bit k val) ((==_iff j i).0 e),
      wanted_lem i req val,
      bit-record_outcome i j (attempt d) s,
    )
    | inr e ↦ ground (arith, e, bit-record_outcome i j (attempt d) s)
  ]

  -- The mask behind the loop.
  pub bit-check_loop :
      (i : ℕ) (ds : List D) (s : State) (j : ℕ)
      → bit j (check_loop c attempt req val i ds s).avail
        ≡ (bit j s.avail || (bit j req && (not (bit j val) && found_from attempt i ds j)))
  unfolding check_loop step_state
  bit-check_loop i [] s j = ground arith
  bit-check_loop i (d ∷ ds) s j =
      ground (arith, bit-check_loop (suc i) ds (step_state i d s) j, bit-step_state i j d s)

-- After a call, a dependency's bit is set exactly if it was set before, or if it is required, was
-- not set before, stands in the list and its probe finds it.
pub check_all-avail {ℓ} :
    {D : Type ℓ} (c : Code) (attempt : D → Outcome) (req : ℕ) (ds : List D) (s : State) (j : ℕ)
    → bit j (check_all c attempt req ds s).0.avail
      ≡ (bit j s.avail || (bit j req && (not (bit j s.avail) && found_from attempt 0 ds j)))
unfolding check_all
check_all-avail c attempt req ds s j = elim (Bool-cases (has_all s.avail req)) [
  | inl h ↦ rw h (
      absorb (bit j s.avail) (bit j req) (found_from attempt 0 ds j)
        ((has_mask_iff s.avail req).0 h j))
  | inr h ↦ rw h (bit-check_loop c attempt req s.avail 0 ds s j)
]
  where
    absorb : (a r f : Bool) → (r ≡ true → a ≡ true) → a ≡ (a || (r && (not a && f)))
    absorb true r f h = refl
    absorb false true f h = cc (h refl)
    absorb false false f h = refl

pub check_all_result {ℓ} :
    {D : Type ℓ} (c : Code) (attempt : D → Outcome) (req : ℕ) (ds : List D) (s : State)
    → (check_all c attempt req ds s).1 ≡ has_all (check_all c attempt req ds s).0.avail req
unfolding check_all
check_all_result c attempt req ds s = elim (Bool-cases (has_all s.avail req)) [
  | inl h ↦ rw h (sym h)
  | inr h ↦ rw h refl
]

or_cases : (a r f : Bool) → r ≡ true → (a || (r && (not a && f))) ≡ true → (a ≡ true) ⊎ (f ≡ true)
or_cases true r f e h = inl refl
or_cases false true f e h = inr h
or_cases false false f e h = cc

cases_or : (a r f : Bool) → r ≡ true → (a ≡ true) ⊎ (f ≡ true) → (a || (r && (not a && f))) ≡ true
cases_or true r f e h = refl
cases_or false true f e (inl h) = cc
cases_or false true f e (inr h) = h
cases_or false false f e h = e

-- The call succeeds exactly if every required dependency was available before, or stands in the list
-- and its probe finds it.
pub check_all_iff {ℓ} :
    {D : Type ℓ} (c : Code) (attempt : D → Outcome) (req : ℕ) (ds : List D) (s : State)
    → ((check_all c attempt req ds s).1 ≡ true)
      ↔ ((j : ℕ) → bit j req ≡ true → (bit j s.avail ≡ true) ⊎ (found_from attempt 0 ds j ≡ true))
check_all_iff c attempt req ds s = (
  λ h j e. or_cases (bit j s.avail) (bit j req) (found_from attempt 0 ds j) e (
      sym (check_all-avail c attempt req ds s j)
      ∙ (has_mask_iff (check_all c attempt req ds s).0.avail req).0
          (sym (check_all_result c attempt req ds s) ∙ h) j e),
  λ h.
      check_all_result c attempt req ds s
      ∙ (has_mask_iff (check_all c attempt req ds s).0.avail req).1 λ j e.
          check_all-avail c attempt req ds s j
          ∙ cases_or (bit j s.avail) (bit j req) (found_from attempt 0 ds j) e (h j e),
)
