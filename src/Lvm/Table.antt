-- ===== src/Lvm/Table.antt =====
-- src/plugins/lvm/lvm.c (parse_lvm_vars): the lines of `lvs --nameprefixes --unquoted` as hash tables.
pub mod RoundTrip
use mathlib.Core.Option
use libblockdev.Base.{
  ℕ, zero, suc, Option, none, some, List, [], ◌∷◌, Bool, false, ◌||◌, Bytes, bytes_eq, strsplit_set,
  strtoull_0, if◌then◌else◌, ◌==◌,
}

-- The pairs of a hash table, the latest first.
abbrev pub Table : Type 0
Table = List (Bytes × Bytes)

-- `g_hash_table_lookup`
unfoldable pub lookup : Bytes → Table → Option Bytes
lookup key [] = none
lookup key ((k, v) ∷ table) = let rest = lookup key table in if bytes_eq k key then some v else rest

abbrev under : ℕ → Bytes × Bytes → Bytes × Bytes
under c (k, v) = (c ∷ k, v)

-- `g_strsplit (item, "=", 2)`, where it gives two parts.
unfoldable pub split_item : Bytes → Option (Bytes × Bytes)
split_item [] = none
split_item (c ∷ s) =
    let rest = split_item s in if c == b'=' then some ([], s) else Option.map (under c) rest

abbrev pub is_blank : ℕ → Bool
is_blank c = c == b' ' || (c == b'\t' || c == b'\n')

-- A part with a `=` goes into the table and is counted.
abbrev pub add_item : Bytes → Table × ℕ → Table × ℕ
add_item item (table, n) = elim (split_item item) [
  | none ↦ (table, n)
  | some kv ↦ (kv ∷ table, suc n)
]

unfoldable pub add_items : List Bytes → Table × ℕ → Table × ℕ
unfolding split_item
add_items [] t = t
add_items (item ∷ items) t = add_items items (add_item item t)

unfoldable pub parse_lvm_vars : Bytes → Table × ℕ
unfolding add_items strsplit_set
parse_lvm_vars str = add_items (strsplit_set is_blank str) ([], zero)

-- `g_strsplit (output, "\n", 0)`
unfoldable pub lines : Bytes → List Bytes
unfolding strsplit_set
lines output = strsplit_set (λ c. c == b'\n') output

-- The number under a key, 0 without the key.
unfoldable pub number : Bytes → Table → ℕ
unfolding lookup strtoull_0
number key table = elim (lookup key table) [ none ↦ 0 | some v ↦ strtoull_0 v ]

-- `g_strsplit (value, ",", -1)` under a key, NULL without the key.
unfoldable pub comma_list : Bytes → Table → Option (List Bytes)
unfolding lookup strsplit_set
comma_list key table = Option.map (strsplit_set (λ c. c == b',')) (lookup key table)

-- `g_strcmp0 (value, text) == 0` under a key
unfoldable pub is_text : Bytes → Bytes → Table → Bool
unfolding lookup
is_text key text table = elim (lookup key table) [ none ↦ false | some v ↦ bytes_eq v text ]
