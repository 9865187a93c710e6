-- ===== src/Zfs/VdevTree.antt =====
-- src/plugins/zfs.c (bd_zfs_pool_get_vdevs, bd_zfs_vdev_infer_type): the tree of vdevs that
-- `zpool status` prints by indentation. The nodes are objects with pointers to their children: here a
-- store, a list in the order of allocation, and pointers are places in it. What stat finds is an
-- argument.
pub mod Parents
pub mod Depth
pub mod Tests
use libblockdev.Base.{
  ℕ, zero, suc, ◌+◌, Option, none, some, List, [], ◌∷◌, ◌++◌, Bool, true, false, not, ◌&&◌, ◌||◌,
  Bytes, is_empty, is_space, has_prefix, bytes_eq, strstrip, if◌then◌else◌, ◌==◌, ltb, leb, length,
  Result, ok, err, GError, zfs_parse, fail, codes,
}
use libblockdev.Zfs.Reports.{State, parse_pool_state, strtoull, lines_of}

pub data VdevType : Type 0 where
  disk file mirror raidz1 raidz2 raidz3 draid spare log cache special dedup root_vdev unknown_vdev :
      VdevType

-- `stat (name, &st)` and the kind of the file.
pub data FileKind : Type 0 where
  block regular other_kind : FileKind

type_of_file : Option FileKind → VdevType
type_of_file (some block) = disk
type_of_file (some regular) = file
type_of_file (some other_kind) = unknown_vdev
type_of_file none = unknown_vdev

unfoldable pub vdev_infer_type : (Bytes → Option FileKind) → Bytes → VdevType
unfolding type_of_file
vdev_infer_type stat name =
    if has_prefix name (codes "mirror-")
    then mirror
    else if has_prefix name (codes "raidz1-") || has_prefix name (codes "raidz-")
    then raidz1
    else if has_prefix name (codes "raidz2-")
    then raidz2
    else if has_prefix name (codes "raidz3-")
    then raidz3
    else if has_prefix name (codes "draid")
    then draid
    else if bytes_eq name (codes "spare") || bytes_eq name (codes "spares")
    then spare
    else if bytes_eq name (codes "log") || bytes_eq name (codes "logs")
    then log
    else if bytes_eq name (codes "cache")
    then cache
    else if bytes_eq name (codes "special")
    then special
    else if bytes_eq name (codes "dedup")
    then dedup
    else if has_prefix name (codes "/")
    then type_of_file (stat name)
    else if has_prefix name (codes "sd")
        || (has_prefix name (codes "nvme")
            || (has_prefix name (codes "vd")
                || (has_prefix name (codes "hd")
                    || (has_prefix name (codes "xvd") || has_prefix name (codes "da")))))
    then disk
    else unknown_vdev

pub record Vdev : Type 0 where
  pub path : Bytes
  pub type : VdevType
  pub state : State
  pub read_errors : ℕ
  pub write_errors : ℕ
  pub checksum_errors : ℕ
  pub children : List ℕ

-- The first five fields of a line.
vdev_of : (Bytes → Option FileKind) → List Bytes → Option Vdev
unfolding vdev_infer_type parse_pool_state strtoull
vdev_of stat (f0 ∷ f1 ∷ f2 ∷ f3 ∷ f4 ∷ rest) = some (record {
  path = f0;
  type = vdev_infer_type stat f0;
  state = parse_pool_state f1;
  read_errors = strtoull f2;
  write_errors = strtoull f3;
  checksum_errors = strtoull f4;
  children = [];
})
vdev_of stat fields = none

-- `g_regex_split` at runs of blanks, of a text without blanks at its ends.
words_from : Bytes → Bytes → List Bytes
words_from [] part = part ∷ []
words_from (c ∷ s) part =
    let cut = if is_empty part then words_from s [] else part ∷ words_from s [] in
    let longer = words_from s (part ++ c ∷ []) in if is_space c || c == 11 then cut else longer

unfoldable pub words : Bytes → List Bytes
unfolding words_from
words [] = []
words (c ∷ s) = words_from (c ∷ s) []

-- How many blanks a line begins with, and what is behind them.
unfoldable pub indent_of : Bytes → ℕ
indent_of [] = 0
indent_of (c ∷ s) = let rest = suc (indent_of s) in if c == b' ' || c == b'\t' then rest else 0

unfoldable pub unindented : Bytes → Bytes
unindented [] = []
unindented (c ∷ s) = let rest = unindented s in if c == b' ' || c == b'\t' then rest else c ∷ s

-- The lines of vdevs: behind `config:` and the header, up to `errors:`, those with five fields; each
-- with its indentation.
unfoldable pub table_lines : (Bytes → Option FileKind) → List Bytes → List (ℕ × Vdev)
unfolding vdev_of words indent_of unindented
table_lines stat [] = []
table_lines stat (line ∷ lines) =
    let rest = table_lines stat lines in
    let row : List (ℕ × Vdev) = elim (vdev_of stat (words (strstrip (unindented line)))) [
      | none ↦ rest
      | some v ↦ (indent_of line, v) ∷ rest
    ] in
    if is_empty (unindented line)
    then rest
    else if has_prefix (unindented line) (codes "errors:")
    then []
    else row

unfoldable pub after_header : List Bytes → List Bytes
unfolding unindented
after_header [] = []
after_header (line ∷ lines) =
    let rest = after_header lines in
    if has_prefix (unindented line) (codes "NAME") then lines else rest

unfoldable pub after_config : List Bytes → List Bytes
unfolding unindented
after_config [] = []
after_config (line ∷ lines) =
    let rest = after_config lines in
    if has_prefix (unindented line) (codes "config:") then lines else rest

-- `top_vdevs`, the nodes, and the stack, its top first: a place in the store and the indentation.
pub record Tree : Type 0 where
  pub nodes : List Vdev
  pub top_vdevs : List ℕ
  pub stack : List (ℕ × ℕ)

abbrev pub empty_tree : Tree
empty_tree = record { nodes = []; top_vdevs = []; stack = [] }

-- `while (stack_top >= 0 && stack_indent[stack_top] >= indent) stack_top--;`
unfoldable pub pop_stack : ℕ → List (ℕ × ℕ) → List (ℕ × ℕ)
pop_stack indent [] = []
pop_stack indent ((k, i) ∷ stack) =
    let rest = pop_stack indent stack in if leb indent i then rest else (k, i) ∷ stack

-- The parent's list of children gets one more.
unfoldable pub add_child : List Vdev → ℕ → ℕ → List Vdev
add_child [] p k = []
add_child (v ∷ vs) zero k = record v { children = v.children ++ (k ∷ []) } ∷ vs
add_child (v ∷ vs) (suc p) k = v ∷ add_child vs p k

abbrev pub max_depth : ℕ
max_depth = 64

-- The new vdev `k` under what is left on the stack.
unfoldable pub place : ℕ → List (ℕ × ℕ) → ℕ → Vdev → Tree → Tree
unfolding add_child
place indent [] k v t = record {
  nodes = t.nodes ++ (v ∷ []);
  top_vdevs = t.top_vdevs ++ (k ∷ []);
  stack = (k, indent) ∷ [];
}
place indent ((p, i) ∷ stack) k v t = record {
  nodes = add_child (t.nodes ++ (v ∷ [])) p k;
  top_vdevs = t.top_vdevs;
  stack = (k, indent) ∷ (p, i) ∷ stack;
}

unfoldable pub add_vdev : Bytes → ℕ → Vdev → Tree → Result Tree
unfolding pop_stack place
add_vdev name indent v t =
    if leb max_depth (length (pop_stack indent t.stack))
    then fail zfs_parse
        (codes "Vdev tree depth exceeds maximum (64) for pool '" ++ name ++ codes "'")
    else ok (place indent (pop_stack indent t.stack) (length t.nodes) v t)

-- The rows that are not at the indentation of the first, which is the pool itself.
unfoldable pub add_rows : Bytes → ℕ → List (ℕ × Vdev) → Tree → Result Tree
unfolding add_vdev
add_rows name root [] t = ok t
add_rows name root ((indent, v) ∷ rows) t =
    let skipped = add_rows name root rows t in
    let added : Result Tree = elim (add_vdev name indent v t) [
      | err e ↦ err e
      | ok u ↦ add_rows name root rows u
    ] in
    if indent == root then skipped else added

unfoldable pub build_tree : Bytes → List (ℕ × Vdev) → Result Tree
unfolding add_rows
build_tree name [] = ok empty_tree
build_tree name ((root, v) ∷ rows) = add_rows name root ((root, v) ∷ rows) empty_tree

some_vdevs : Bytes → Tree → Result Tree
some_vdevs name t =
    if length t.top_vdevs == 0
    then fail zfs_parse (
        codes "Failed to parse any vdevs from 'zpool status' output for pool '"
        ++ name
        ++ codes "'")
    else ok t

abbrev found_vdevs : Bytes → Result Tree → Result Tree
unfolding some_vdevs
found_vdevs name (err e) = err e
found_vdevs name (ok t) = some_vdevs name t

unfoldable pub parse_vdevs : (Bytes → Option FileKind) → Bytes → Bytes → Result Tree
unfolding build_tree some_vdevs table_lines after_header after_config lines_of
parse_vdevs stat name output =
    found_vdevs name
      (build_tree name (table_lines stat (after_header (after_config (lines_of output)))))
