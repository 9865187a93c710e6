-- ===== src/Lvm/Table/RoundTrip.antt =====
-- src/plugins/lvm/lvm.c (parse_lvm_vars): the variables of a line of `lvs` are read back.
use libblockdev.Base.{
  ℕ, suc, ◌+◌, Option, none, some, List, [], ◌∷◌, ◌++◌, Bool, true, false, Bytes, All, bytes_eq,
  length, map, if◌then◌else◌, ◌≡◌, refl, sym, ap, ◌∙◌, arith, strsplit_set, split_parts,
}
use libblockdev.Base.Join.{join, Free, Without, split_parts-join}
use libblockdev.Lvm.Table.{Table, lookup, split_item, add_item, add_items, is_blank, parse_lvm_vars}

abbrev pub item : Bytes × Bytes → Bytes
item (k, v) = k ++ b'=' ∷ v

-- What `lvs --nameprefixes --unquoted` prints for a volume: the variables behind two blanks.
abbrev pub var_line : List (Bytes × Bytes) → Bytes
var_line vars = join b' ' ([] ∷ [] ∷ map item vars)

-- A name without a `=`, and no blank in the name or the value.
abbrev pub IsVariable : Bytes × Bytes → Type 0
IsVariable (k, v) = Without b'=' k × Free is_blank k × Free is_blank v

abbrev pub or_else : Option Bytes → Option Bytes → Option Bytes
or_else (some a) b = some a
or_else none b = b

-- The value that stands last under a name.
abbrev pub latest : Bytes → List (Bytes × Bytes) → Option Bytes
latest key [] = none
latest key ((k, v) ∷ vars) = or_else (latest key vars) (if bytes_eq k key then some v else none)

split_item-item : (k v : Bytes) → Without b'=' k → split_item (item (k, v)) ≡ some (k, v)
unfolding split_item
split_item-item [] v h = refl
split_item-item (c ∷ k) v (other, h) = rw (other, split_item-item k v h) refl

append-Free : (a b : Bytes) → Free is_blank a → Free is_blank b → Free is_blank (a ++ b'=' ∷ b)
append-Free [] b ha hb = (refl, hb)
append-Free (c ∷ a) b (h, ha) hb = (h, append-Free a b ha hb)

items-Free :
    (vars : List (Bytes × Bytes)) → All IsVariable vars → All (Free is_blank) (map item vars)
items-Free [] h = tt
items-Free ((k, v) ∷ vars) ((_, hk, hv), h) = (append-Free k v hk hv, items-Free vars h)

-- The table behind a list of variables.
onto : List (Bytes × Bytes) → Table → Table
onto [] table = table
onto (kv ∷ vars) table = onto vars (kv ∷ table)

add_found : Table → ℕ → Option (Bytes × Bytes) → Table × ℕ
add_found table n none = (table, n)
add_found table n (some kv) = (kv ∷ table, suc n)

add_item-found :
    (text : Bytes) (table : Table) (n : ℕ)
    → add_item text (table, n) ≡ add_found table n (split_item text)
unfolding add_found
add_item-found text table n = ground arith

add_item-item :
    (k v : Bytes) (table : Table) (n : ℕ)
    → Without b'=' k
    → add_item (item (k, v)) (table, n) ≡ ((k, v) ∷ table, suc n)
unfolding add_found
add_item-item k v table n h =
    add_item-found (item (k, v)) table n ∙ ap (add_found table n) (split_item-item k v h)

add_zero : (n : ℕ) → n + 0 ≡ n
add_zero n = omega arith

add_items-item :
    (vars : List (Bytes × Bytes)) (table : Table) (n : ℕ)
    → All IsVariable vars
    → add_items (map item vars) (table, n) ≡ (onto vars table, n + length vars)
unfolding add_items onto
add_items-item [] table n h = ap (λ m. (table, m)) (sym (add_zero n))
add_items-item ((k, v) ∷ vars) table n ((hk, _, _), h) =
    ap (add_items (map item vars)) (add_item-item k v table n hk)
    ∙ add_items-item vars ((k, v) ∷ table) (suc n) h
    ∙ ap (λ m. (onto vars ((k, v) ∷ table), m)) (omega arith)

before_table :
    (found : Option Bytes) (same : Bool) (v : Bytes) (old : Option Bytes)
    → or_else found (if same then some v else old)
      ≡ or_else (or_else found (if same then some v else none)) old
before_table (some a) same v old = refl
before_table none true v old = refl
before_table none false v old = refl

lookup-onto :
    (key : Bytes) (vars : List (Bytes × Bytes)) (table : Table)
    → lookup key (onto vars table) ≡ or_else (latest key vars) (lookup key table)
unfolding lookup onto
lookup-onto key [] table = refl
lookup-onto key ((k, v) ∷ vars) table =
    lookup-onto key vars ((k, v) ∷ table)
    ∙ before_table (latest key vars) (bytes_eq k key) v (lookup key table)

or_else-none : (found : Option Bytes) → or_else found none ≡ found
or_else-none (some a) = refl
or_else-none none = refl

parse_line :
    (vars : List (Bytes × Bytes))
    → All IsVariable vars
    → parse_lvm_vars (var_line vars) ≡ (onto vars [], length vars)
unfolding parse_lvm_vars strsplit_set split_parts add_items split_item
parse_line vars h =
    ap (λ items. add_items items ([], 0))
      (split_parts-join is_blank b' ' [] (map item vars) (tt, items-Free vars h) refl)
    ∙ add_items-item vars [] 0 h
    ∙ ap (λ m. (onto vars [], m)) (omega arith)

-- A line with variables is read back, whatever they are, as long as no name holds a `=` and no name and
-- value a blank: each is counted, and under each name the table has the value that stands last.
pub parse_lvm_vars-var_line :
    (vars : List (Bytes × Bytes)) (key : Bytes)
    → All IsVariable vars
    → ((parse_lvm_vars (var_line vars)).1 ≡ length vars)
      × (lookup key (parse_lvm_vars (var_line vars)).0 ≡ latest key vars)
unfolding lookup
parse_lvm_vars-var_line vars key h = (
  ap (λ t. t.1) (parse_line vars h),
  ap (λ t. lookup key t.0) (parse_line vars h)
      ∙ lookup-onto key vars []
      ∙ or_else-none (latest key vars),
)
