-- ===== src/Lvm/Calc/Rounding.antt =====
-- Rounding to physical extents: multiples, bounds, no overflow.
use libblockdev.Base.{
  ℕ, ◌+◌, ◌-◌, ◌*◌, ◌/◌, ◌%◌, ◌≤◌, ◌<◌, Bool, true, false, ◌&&◌, ◌==◌, leb, max_u64, ◌≡◌, ◌≢◌, refl,
  sym, ◌⊎◌, inl, inr, arith, Bool-cases, subst, ==_iff,
}
use native.Mathlib.Nat.{mod-lt, div-add-mod, mul-mod_right, mod-le}
use libblockdev.Lvm.Calc.{resolve_pe_size, round_to, round_size_to_pe, get_lv_physical_size}

pub resolve_pe_size_pos : (pe : ℕ) → 0 < resolve_pe_size pe
unfolding resolve_pe_size
resolve_pe_size_pos pe = ground arith

-- What is left of a size without its rest, and with the rest filled up, are multiples.
multiple_below : (size pe : ℕ) → size - size % pe ≡ pe * (size / pe)
multiple_below size pe = omega (arith, div-add-mod size pe)

multiple_above : (size pe : ℕ) → 0 < pe → size + (pe - size % pe) ≡ pe * (size / pe + 1)
multiple_above size pe h = grind (arith, div-add-mod size pe, mod-lt size h)

-- A size rounded to the extent size `p`: a multiple of it, within 64 bits and less than one extent away;
-- not below the size, unless it is to be rounded down or the next multiple does not fit in 64 bits;
-- not above the size, unless it is to be rounded up.
abbrev pub IsRounded : ℕ → ℕ → Bool → ℕ → Type 0
IsRounded size p up r =
    (r % p ≡ 0)
    × (r ≤ max_u64)
    × (r < size + p)
    × (size < r + p)
    × ((size ≤ r) ⊎ (up ≡ false) ⊎ (max_u64 < size + (p - size % p)))
    × ((r ≤ size) ⊎ (up ≡ true))

IsRounded-down :
    (size p : ℕ) (up : Bool)
    → 0 < p
    → size ≤ max_u64
    → (up ≡ false) ⊎ (max_u64 < size + (p - size % p))
    → IsRounded size p up (size - size % p)
IsRounded-down size p up h fits why = (
  rw (multiple_below size p) (mul-mod_right p (size / p)),
  omega arith,
  omega (arith, h),
  omega (arith, mod-lt size h, mod-le size p),
  (elim why [ inl a ↦ inr (inl a) | inr b ↦ inr (inr b) ]),
  inl (omega arith),
)

IsRounded-up :
    (size p : ℕ)
    → 0 < p
    → size + (p - size % p) ≤ max_u64
    → size % p ≢ 0
    → IsRounded size p true (size + (p - size % p))
IsRounded-up size p h fits ne = (
  rw (multiple_above size p h) (mul-mod_right p (size / p + 1)),
  fits,
  omega (arith, ne),
  omega (arith, h),
  inl (omega arith),
  inr refl,
)

round_exact : (size p : ℕ) (up : Bool) → size % p ≡ 0 → round_to size p up ≡ size
unfolding round_to
round_exact size p up e = ground (arith, e)

round_up :
    (size p : ℕ) (up : Bool)
    → (size % p == 0) ≡ false
    → (up && leb size (max_u64 - (p - size % p))) ≡ true
    → round_to size p up ≡ size + (p - size % p)
unfolding round_to
round_up size p up e u = rw (e, u) refl

round_down :
    (size p : ℕ) (up : Bool)
    → (size % p == 0) ≡ false
    → (up && leb size (max_u64 - (p - size % p))) ≡ false
    → round_to size p up ≡ size - size % p
unfolding round_to
round_down size p up e u = rw (e, u) refl

why_down :
    (size d : ℕ) (up : Bool)
    → (up && leb size (max_u64 - d)) ≡ false
    → (up ≡ false) ⊎ (max_u64 < size + d)
why_down size d false u = inl refl
why_down size d true u = inr (ground arith)

round_to-IsRounded :
    (size p : ℕ) (up : Bool) → 0 < p → size ≤ max_u64 → IsRounded size p up (round_to size p up)
round_to-IsRounded size p up h fits = elim (Bool-cases (size % p == 0)) [
  | inl e ↦
      let z : size % p ≡ 0 = (==_iff (size % p) 0).0 e in
      subst (IsRounded size p up) (sym (round_exact size p up z))
        (z, fits, omega (arith, h), omega (arith, h), inl (omega arith), inl (omega arith))
  | inr e ↦ elim (Bool-cases (up && leb size (max_u64 - (p - size % p)))) [
    | inl u ↦
        let is_up : up ≡ true = ground (arith, u) in
        let small : size + (p - size % p) ≤ max_u64 = ground (arith, u, e) in
        subst (IsRounded size p up) (sym (round_up size p up e u)) (
          subst (λ b. IsRounded size p b (size + (p - size % p))) (sym is_up)
            (IsRounded-up size p h small (ground (arith, e))))
    | inr u ↦
        subst (IsRounded size p up) (sym (round_down size p up e u))
          (IsRounded-down size p up h fits (why_down size (p - size % p) up u))
  ]
]

-- For every 64-bit size, and any extent size (0 stands for the default of 4 MiB),
-- `bd_lvm_round_size_to_pe` returns a multiple of the extent size that fits in 64 bits and is less than
-- one extent away from the size; it is not below the size unless rounding down is asked for or the
-- next multiple does not fit in 64 bits, and not above it unless rounding up is asked for.
pub round_size_to_pe-IsRounded :
    (size pe : ℕ) (up : Bool)
    → size ≤ max_u64
    → IsRounded size (resolve_pe_size pe) up (round_size_to_pe size pe up)
unfolding round_size_to_pe
round_size_to_pe-IsRounded size pe up fits =
    round_to-IsRounded size (resolve_pe_size pe) up (resolve_pe_size_pos pe) fits

pub round_size_to_pe-multiple :
    (size pe : ℕ) (up : Bool)
    → size ≤ max_u64
    → round_size_to_pe size pe up % resolve_pe_size pe ≡ 0
round_size_to_pe-multiple size pe up fits = (round_size_to_pe-IsRounded size pe up fits).0

-- Rounding twice, in any two directions, is rounding once.
pub round_size_to_pe_idem :
    (size pe : ℕ) (up again : Bool)
    → size ≤ max_u64
    → round_size_to_pe (round_size_to_pe size pe up) pe again ≡ round_size_to_pe size pe up
unfolding round_size_to_pe
round_size_to_pe_idem size pe up again fits =
    round_exact (round_to size (resolve_pe_size pe) up) (resolve_pe_size pe) again
      (round_size_to_pe-multiple size pe up fits)

resolve_twice : (pe : ℕ) → resolve_pe_size (resolve_pe_size pe) ≡ resolve_pe_size pe
unfolding resolve_pe_size
resolve_twice pe = ground arith

-- The space that a volume takes is its size rounded up to whole extents: a multiple of the extent
-- size and no less than the size, where that multiple fits in 64 bits.
pub get_lv_physical_size_lem :
    (lv_size pe : ℕ)
    → lv_size + resolve_pe_size pe ≤ max_u64
    → (get_lv_physical_size lv_size pe % resolve_pe_size pe ≡ 0)
      × (lv_size ≤ get_lv_physical_size lv_size pe)
      × (get_lv_physical_size lv_size pe < lv_size + resolve_pe_size pe)
unfolding get_lv_physical_size
get_lv_physical_size_lem lv_size pe fits =
    let r : IsRounded lv_size (resolve_pe_size pe) true
        (round_size_to_pe lv_size (resolve_pe_size pe) true) =
      subst (λ p. IsRounded lv_size p true (round_size_to_pe lv_size (resolve_pe_size pe) true))
        (resolve_twice pe)
        (round_size_to_pe-IsRounded lv_size (resolve_pe_size pe) true (omega (arith, fits))) in
    (
      r.0,
      elim r.4 [
        | inl h ↦ h
        | inr (inl f) ↦ cc f
        | inr (inr big) ↦ absurd (omega (arith, big, fits))
      ],
      r.2,
    )
