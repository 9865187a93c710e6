-- ===== src/Utils/Version/Order.antt =====
-- The comparison of versions is a total order on the valid ones, up to versions with the same fields.
use libblockdev.Base.{
  ℕ, List, [], ◌∷◌, Bool, true, false, ◌≡◌, ◌≢◌, refl, ◌⊎◌, inl, inr, arith, Bytes, Result, ok,
}
use libblockdev.Utils.Version.{
  is_version, fields, Cmp, lower, same, higher, compare_fields, version_cmp,
}

abbrev pub reversed : Cmp → Cmp
reversed lower = higher
reversed same = same
reversed higher = lower

compare_fields-swap : (xs ys : List ℕ) → compare_fields ys xs ≡ reversed (compare_fields xs ys)
unfolding compare_fields
compare_fields-swap [] [] = refl
compare_fields-swap [] (y ∷ ys) = refl
compare_fields-swap (x ∷ xs) [] = refl
compare_fields-swap (x ∷ xs) (y ∷ ys) = ground (arith, compare_fields-swap xs ys)

-- Two versions that can be compared compare the other way round with the result reversed.
pub version_cmp-swap :
    (v w : Bytes) {c : Cmp} → version_cmp v w ≡ ok c → version_cmp w v ≡ ok (reversed c)
unfolding version_cmp
version_cmp-swap v w h = ground (arith, compare_fields-swap (fields v) (fields w))

-- Not higher.
abbrev pub AtMost : Result Cmp → Type 0
AtMost r = (r ≡ ok lower) ⊎ (r ≡ ok same)

le_fields : List ℕ → List ℕ → Bool
le_fields xs ys = elim (compare_fields xs ys) [ higher ↦ false | _ ↦ true ]

compare_fields_trans :
    (xs ys zs : List ℕ)
    → compare_fields xs ys ≢ higher
    → compare_fields ys zs ≢ higher
    → compare_fields xs zs ≢ higher
unfolding compare_fields
compare_fields_trans [] [] zs h k = k
compare_fields_trans [] (y ∷ ys) [] h k = λ e. cc
compare_fields_trans [] (y ∷ ys) (z ∷ zs) h k = λ e. cc
compare_fields_trans (x ∷ xs) [] zs h k = absurd (h refl)
compare_fields_trans (x ∷ xs) (y ∷ ys) [] h k = absurd (k refl)
compare_fields_trans (x ∷ xs) (y ∷ ys) (z ∷ zs) h k = ground (arith, compare_fields_trans xs ys zs)

version_cmp_ok :
    (v w : Bytes) {c : Cmp}
    → version_cmp v w ≡ ok c
    → (is_version v ≡ true) × (is_version w ≡ true) × (compare_fields (fields v) (fields w) ≡ c)
unfolding version_cmp
version_cmp_ok v w h = ground arith

AtMost-fields :
    (v w : Bytes)
    → AtMost (version_cmp v w)
    → (is_version v ≡ true)
      × (is_version w ≡ true)
      × (compare_fields (fields v) (fields w) ≢ higher)
AtMost-fields v w (inl h) = let (a, b, c) = version_cmp_ok v w h in (a, b, λ e. cc)
AtMost-fields v w (inr h) = let (a, b, c) = version_cmp_ok v w h in (a, b, λ e. cc)

not_higher : (c : Cmp) → c ≢ higher → (c ≡ lower) ⊎ (c ≡ same)
not_higher lower h = inl refl
not_higher same h = inr refl
not_higher higher h = absurd (h refl)

fields-AtMost :
    (v w : Bytes)
    → is_version v ≡ true
    → is_version w ≡ true
    → compare_fields (fields v) (fields w) ≢ higher
    → AtMost (version_cmp v w)
unfolding version_cmp
fields-AtMost v w a b h = elim (not_higher (compare_fields (fields v) (fields w)) h) [
  | inl e ↦ inl (rw (a, b, e) refl)
  | inr e ↦ inr (rw (a, b, e) refl)
]

-- "Not higher" is transitive: if `u` is at most `v` and `v` is at most `w`, then `u` is at most `w`.
pub version_cmp_trans :
    (u v w : Bytes) → AtMost (version_cmp u v) → AtMost (version_cmp v w) → AtMost (version_cmp u w)
version_cmp_trans u v w h k =
    let (a, b, c) = AtMost-fields u v h in
    let (b', d, e) = AtMost-fields v w k in
    fields-AtMost u w a d (compare_fields_trans (fields u) (fields v) (fields w) c e)
