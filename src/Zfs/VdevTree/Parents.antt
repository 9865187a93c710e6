-- ===== src/Zfs/VdevTree/Parents.antt =====
-- The stack of the loop finds the parent that the indentation asks for: the nearest line above that is
-- indented less.
use libblockdev.Base.{
  ℕ, ◌≤◌, Option, none, some, List, [], ◌∷◌, ◌++◌, Bytes, if◌then◌else◌, ◌==◌, ltb, leb, length,
  Result, ok, err, GError, subst, ◌≡◌, refl, sym, ◌∙◌, ap, arith, Bool-cases, inl, inr,
}
use libblockdev.Zfs.Pool.Guards.{ok-injective}
use libblockdev.Zfs.VdevTree.{
  Vdev, Tree, empty_tree, pop_stack, add_child, place, add_vdev, add_rows, build_tree, max_depth,
}

-- The nearest line above that is indented less than `x`; the last line comes first.
abbrev pub nearest : ℕ → List (ℕ × ℕ) → Option ℕ
nearest x [] = none
nearest x ((k, i) ∷ above) = if ltb i x then some k else nearest x above

-- The vdevs as they are to be placed, with all the lines above.
pub record Placed : Type 0 where
  pub nodes : List Vdev
  pub top_vdevs : List ℕ
  pub above : List (ℕ × ℕ)

abbrev pub under : Option ℕ → ℕ → Vdev → Placed → Placed
under none k v s = record s { nodes = s.nodes ++ (v ∷ []); top_vdevs = s.top_vdevs ++ (k ∷ []) }
under (some p) k v s = record s { nodes = add_child (s.nodes ++ (v ∷ [])) p k }

abbrev pub put_vdev : ℕ → Vdev → Placed → Placed
put_vdev indent v s = record (under (nearest indent s.above) (length s.nodes) v s) {
  above = (length s.nodes, indent) ∷ s.above;
}

abbrev pub put_rows : ℕ → List (ℕ × Vdev) → Placed → Placed
put_rows root [] s = s
put_rows root ((indent, v) ∷ rows) s =
    put_rows root rows (if indent == root then s else put_vdev indent v s)

abbrev pub reference_tree : List (ℕ × Vdev) → Placed
reference_tree [] = record { nodes = []; top_vdevs = []; above = [] }
reference_tree ((root, v) ∷ rows) =
    put_rows root ((root, v) ∷ rows) (record { nodes = []; top_vdevs = []; above = [] })

nearest-pop_stack :
    (x indent : ℕ) (stack : List (ℕ × ℕ))
    → x ≤ indent
    → nearest x (pop_stack indent stack) ≡ nearest x stack
unfolding pop_stack
nearest-pop_stack x indent [] h = refl
nearest-pop_stack x indent ((k, i) ∷ stack) h = ground (arith, nearest-pop_stack x indent stack h)

-- The top of the stack, where the loop that pops has stopped.
abbrev top_of : List (ℕ × ℕ) → Option ℕ
top_of [] = none
top_of ((k, i) ∷ stack) = some k

top_of-pop_stack :
    (indent : ℕ) (stack : List (ℕ × ℕ)) → top_of (pop_stack indent stack) ≡ nearest indent stack
unfolding pop_stack
top_of-pop_stack indent [] = refl
top_of-pop_stack indent ((k, i) ∷ stack) = ground (arith, top_of-pop_stack indent stack)

-- The loop and the reference have the same vdevs, and any question about a parent has the same answer.
record Agrees (t : Tree) (s : Placed) : Type 0 where
  nodes : t.nodes ≡ s.nodes
  tops : t.top_vdevs ≡ s.top_vdevs
  parents : (x : ℕ) → nearest x t.stack ≡ nearest x s.above

nearest-push :
    (x indent k : ℕ) (stack above : List (ℕ × ℕ))
    → ((y : ℕ) → nearest y stack ≡ nearest y above)
    → nearest x ((k, indent) ∷ pop_stack indent stack) ≡ nearest x ((k, indent) ∷ above)
nearest-push x indent k stack above h = elim (Bool-cases (ltb indent x)) [
  | inl less ↦ rw less refl
  | inr more ↦ rw more (nearest-pop_stack x indent stack (ground arith) ∙ h x)
]

place-Agrees :
    (indent : ℕ) (popped : List (ℕ × ℕ)) (v : Vdev) (t : Tree) (s : Placed)
    → Agrees t s
    → top_of popped ≡ nearest indent s.above
    → ((x : ℕ)
        → nearest x ((length t.nodes, indent) ∷ popped)
          ≡ nearest x ((length t.nodes, indent) ∷ s.above))
    → Agrees (place indent popped (length t.nodes) v t) (put_vdev indent v s)
unfolding place
place-Agrees indent [] v t s a top h = record {
  nodes = rw (← top) (ap (λ ns. ns ++ (v ∷ [])) a.nodes);
  tops = rw (← top) (
      ap (λ ts. ts ++ (length t.nodes ∷ [])) a.tops
      ∙ ap (λ (ns : List Vdev). s.top_vdevs ++ (length ns ∷ [])) a.nodes);
  parents = λ x. h x ∙ ap (λ (ns : List Vdev). nearest x ((length ns, indent) ∷ s.above)) a.nodes;
}
place-Agrees indent ((p, i) ∷ popped) v t s a top h = record {
  nodes = rw (← top) (ap (λ (ns : List Vdev). add_child (ns ++ (v ∷ [])) p (length ns)) a.nodes);
  tops = rw (← top) a.tops;
  parents = λ x. h x ∙ ap (λ (ns : List Vdev). nearest x ((length ns, indent) ∷ s.above)) a.nodes;
}

add_vdev-Agrees :
    (name : Bytes) (indent : ℕ) (v : Vdev) (t : Tree) (s : Placed) {u : Tree}
    → Agrees t s
    → add_vdev name indent v t ≡ ok u
    → Agrees u (put_vdev indent v s)
unfolding add_vdev
add_vdev-Agrees name indent v t s {u} a h =
    elim (Bool-cases (leb max_depth (length (pop_stack indent t.stack)))) [
      | inl deep ↦ absurd (clash _ refl (rw deep at h))
      | inr fits ↦
          subst (λ x. Agrees x (put_vdev indent v s)) (ok-injective (rw fits at h))
            (place-Agrees indent (pop_stack indent t.stack) v t s a
              (top_of-pop_stack indent t.stack ∙ a.parents indent)
              (λ x. nearest-push x indent (length t.nodes) t.stack s.above a.parents))
    ]
  where
    clash : {e : GError} (r : Result Tree) → r ≡ err e → r ≡ ok u → ⊥
    clash r y z = cc

add_rows-Agrees :
    (name : Bytes) (root : ℕ) (rows : List (ℕ × Vdev)) (t : Tree) (s : Placed) {u : Tree}
    → Agrees t s
    → add_rows name root rows t ≡ ok u
    → Agrees u (put_rows root rows s)
unfolding add_rows
add_rows-Agrees name root [] t s a h = subst (λ x. Agrees x s) (ok-injective h) a
add_rows-Agrees name root ((indent, v) ∷ rows) t s {u} a h = elim (Bool-cases (indent == root)) [
  | inl same ↦ rw same (add_rows-Agrees name root rows t s a (rw same at h))
  | inr other ↦ rw other (
      go (add_vdev name indent v t) (λ w added. add_vdev-Agrees name indent v t s {u = w} a added)
        (λ w agrees. add_rows-Agrees name root rows w (put_vdev indent v s) agrees) (rw other at h))
]
  where
    go :
        (r : Result Tree)
        → ((w : Tree) → r ≡ ok w → Agrees w (put_vdev indent v s))
        → ((w : Tree)
            → Agrees w (put_vdev indent v s)
            → add_rows name root rows w ≡ ok u
            → Agrees u (put_rows root rows (put_vdev indent v s)))
        → (elim r [ err e ↦ err e | ok w ↦ add_rows name root rows w ]) ≡ ok u
        → Agrees u (put_rows root rows (put_vdev indent v s))
    go (err e) first next k = cc
    go (ok w) first next k = next w (first w refl) k

-- Whenever the lines are read, the nodes with their lists of children, and the vdevs at the top, are
-- those of the reference, where each vdev that is not the pool itself is put under the nearest line
-- above that is indented less, behind the children that are there, or at the top where there is none.
pub build_tree-nearest :
    (name : Bytes) (rows : List (ℕ × Vdev)) {t : Tree}
    → build_tree name rows ≡ ok t
    → (t.nodes ≡ (reference_tree rows).nodes) × (t.top_vdevs ≡ (reference_tree rows).top_vdevs)
unfolding build_tree
build_tree-nearest name [] {t} h =
    let e = ok-injective h in
    (sym (ap (λ (x : Tree). x.nodes) e), sym (ap (λ (x : Tree). x.top_vdevs) e))
build_tree-nearest name ((root, v) ∷ rows) {t} h =
    let a =
      add_rows-Agrees name root ((root, v) ∷ rows) empty_tree
        (record { nodes = []; top_vdevs = []; above = [] })
        (record { nodes = refl; tops = refl; parents = λ x. refl }) h in
    (a.nodes, a.tops)
