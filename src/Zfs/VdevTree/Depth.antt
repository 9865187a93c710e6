-- ===== src/Zfs/VdevTree/Depth.antt =====
-- The stack holds as many vdevs as its array has places, and lines that are not indented far never
-- exceed it.
use libblockdev.Base.{
  ℕ, suc, ◌≤◌, ◌<◌, List, [], ◌∷◌, false, Bytes, ◌==◌, leb, length, Result, ok, err, GError, ◌≡◌,
  refl, arith, Bool-cases, inl, inr, subst, All,
}
use libblockdev.Zfs.Pool.Guards.{ok-injective}
use libblockdev.Zfs.VdevTree.{
  Vdev, Tree, empty_tree, pop_stack, place, add_vdev, add_rows, build_tree, max_depth,
}

-- From the top down, each vdev on the stack is indented less than the one above it, and the top less
-- than `bound`.
abbrev Descends : ℕ → List (ℕ × ℕ) → Type 0
Descends bound [] = Unit
Descends bound ((k, i) ∷ stack) = (i < bound) × Descends i stack

Descends-length : (bound : ℕ) (stack : List (ℕ × ℕ)) → Descends bound stack → length stack ≤ bound
Descends-length bound [] d = omega arith
Descends-length bound ((k, i) ∷ stack) (less, d) = omega (arith, Descends-length i stack d)

pop_stack-Descends :
    (indent bound : ℕ) (stack : List (ℕ × ℕ))
    → Descends bound stack
    → Descends indent (pop_stack indent stack)
unfolding pop_stack
pop_stack-Descends indent bound [] d = tt
pop_stack-Descends indent bound ((k, i) ∷ stack) (less, d) = elim (Bool-cases (leb indent i)) [
  | inl pop ↦ rw pop (pop_stack-Descends indent i stack d)
  | inr stay ↦ rw stay (ground arith, d)
]

-- What holds of the stack between two lines: it fits into its array, and the indentations descend.
abbrev pub FitsStack : Tree → Type 0
FitsStack t = (length t.stack ≤ max_depth) × ((b : ℕ) × Descends b t.stack)

place_stack :
    (indent : ℕ) (popped : List (ℕ × ℕ)) (k : ℕ) (v : Vdev) (t : Tree)
    → (place indent popped k v t).stack ≡ (k, indent) ∷ popped
unfolding place
place_stack indent [] k v t = refl
place_stack indent ((p, i) ∷ popped) k v t = refl

pub add_vdev-FitsStack :
    (name : Bytes) (indent : ℕ) (v : Vdev) (t : Tree) {u : Tree}
    → FitsStack t
    → add_vdev name indent v t ≡ ok u
    → FitsStack u
unfolding add_vdev
add_vdev-FitsStack name indent v t {u} (fits, (b, d)) h =
    elim (Bool-cases (leb max_depth (length (pop_stack indent t.stack)))) [
      | inl deep ↦ absurd (clash _ refl (rw deep at h))
      | inr room ↦ subst FitsStack (ok-injective (rw room at h)) (
          rw (place_stack indent (pop_stack indent t.stack) (length t.nodes) v t)
            (ground arith, (suc indent, (omega arith, pop_stack-Descends indent b t.stack d))))
    ]
  where
    clash : {e : GError} (r : Result Tree) → r ≡ err e → r ≡ ok u → ⊥
    clash r y z = cc

-- A vdev that is indented less than 64 columns is added whatever the stack holds.
add_vdev_succeeds :
    (name : Bytes) (indent : ℕ) (v : Vdev) (t : Tree)
    → indent < max_depth
    → FitsStack t
    → (u : Tree) × (add_vdev name indent v t ≡ ok u)
unfolding add_vdev
add_vdev_succeeds name indent v t small (fits, (b, d)) =
    let short =
      Descends-length indent (pop_stack indent t.stack) (pop_stack-Descends indent b t.stack d) in
    let room : leb max_depth (length (pop_stack indent t.stack)) ≡ false = ground arith in
    (place indent (pop_stack indent t.stack) (length t.nodes) v t, rw room refl)

add_rows_succeeds :
    (name : Bytes) (root : ℕ) (rows : List (ℕ × Vdev)) (t : Tree)
    → All (λ r. r.0 < max_depth) rows
    → FitsStack t
    → (u : Tree) × (add_rows name root rows t ≡ ok u) × FitsStack u
unfolding add_rows
add_rows_succeeds name root [] t h f = (t, refl, f)
add_rows_succeeds name root ((indent, v) ∷ rows) t h f = elim (Bool-cases (indent == root)) [
  | inl same ↦ rw same (add_rows_succeeds name root rows t h.1 f)
  | inr other ↦ rw other (
      let (u, e) = add_vdev_succeeds name indent v t h.0 f in
      rw e (add_rows_succeeds name root rows u h.1 (add_vdev-FitsStack name indent v t f e)))
]

-- Lines that are indented less than 64 columns never exceed the depth of 64: the tree is built, and the
-- stack fits into its array.
build_tree_succeeds :
    (name : Bytes) (rows : List (ℕ × Vdev))
    → All (λ r. r.0 < max_depth) rows
    → (t : Tree) × (build_tree name rows ≡ ok t) × FitsStack t
unfolding build_tree
build_tree_succeeds name [] h = (empty_tree, refl, (omega arith, (0, tt)))
build_tree_succeeds name ((root, v) ∷ rows) h =
    add_rows_succeeds name root ((root, v) ∷ rows) empty_tree h (omega arith, (0, tt))

add_rows-FitsStack :
    (name : Bytes) (root : ℕ) (rows : List (ℕ × Vdev)) (t : Tree) {u : Tree}
    → FitsStack t
    → add_rows name root rows t ≡ ok u
    → FitsStack u
unfolding add_rows
add_rows-FitsStack name root [] t f h = subst FitsStack (ok-injective h) f
add_rows-FitsStack name root ((indent, v) ∷ rows) t {u} f h = elim (Bool-cases (indent == root)) [
  | inl same ↦ add_rows-FitsStack name root rows t f (rw same at h)
  | inr other ↦
      go (add_vdev name indent v t) (λ w added. add_vdev-FitsStack name indent v t {u = w} f added)
        (λ w fits. add_rows-FitsStack name root rows w fits) (rw other at h)
]
  where
    go :
        (r : Result Tree)
        → ((w : Tree) → r ≡ ok w → FitsStack w)
        → ((w : Tree) → FitsStack w → add_rows name root rows w ≡ ok u → FitsStack u)
        → (elim r [ err e ↦ err e | ok w ↦ add_rows name root rows w ]) ≡ ok u
        → FitsStack u
    go (err e) first next k = cc
    go (ok w) first next k = next w (first w refl) k

-- However the lines are indented, the stack of the tree that is built has at most 64 entries, whose
-- indentations fall from the top down.
pub build_tree-FitsStack :
    (name : Bytes) (rows : List (ℕ × Vdev)) {t : Tree} → build_tree name rows ≡ ok t → FitsStack t
unfolding build_tree
build_tree-FitsStack name [] h = subst FitsStack (ok-injective h) (omega arith, (0, tt))
build_tree-FitsStack name ((root, v) ∷ rows) h =
    add_rows-FitsStack name root ((root, v) ∷ rows) empty_tree (omega arith, (0, tt)) h
