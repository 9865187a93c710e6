-- ===== src/Zfs/Importable/Blocks.antt =====
-- What is read out of the blocks of `zpool import`, and what a block without an id leads to.
use libblockdev.Base.{
  ℕ, none, some, List, [], ◌∷◌, ◌++◌, true, false, Bytes, has_prefix, strstrip, chug, chomp,
  is_space, is_empty, codes, ◌≡◌, refl, ap, ◌∙◌, All, append_assoc, append-nil,
}
use libblockdev.Base.Join.{Without, join, strsplit_set-join}
use libblockdev.Zfs.Reports.{PoolInfo, parse_pool_state, lines_of}
use libblockdev.Zfs.Importable.{
  null, live, freed, Scan, importable_info, flush, scan_trimmed, scan_lines, last_block,
  nothing_yet, release, current_state, parse_importable, ◌>>=◌,
}

-- A value as `zpool` prints it: not empty, and no blank at its ends.
abbrev pub IsValue : Bytes → Type 0
IsValue s = (is_empty s ≡ false) × (chug s ≡ s) × (chomp s ≡ s)

chomp-append : (p s : Bytes) → is_empty s ≡ false → chomp s ≡ s → chomp (p ++ s) ≡ p ++ s
chomp-append [] s h e = e
chomp-append (c ∷ p) s h e = keep (p ++ s) (chomp-append p s h e) (not_empty p s h)
  where
    not_empty : (p s : Bytes) → is_empty s ≡ false → is_empty (p ++ s) ≡ false
    not_empty [] s h = h
    not_empty (c ∷ p) s h = refl

    keep : (t : Bytes) → chomp t ≡ t → is_empty t ≡ false → chomp (c ∷ t) ≡ c ∷ t
    keep [] e h = cc
    keep (d ∷ t) e h = rw e

-- A line of a block: some blanks, the keyword with a blank behind it, and the value.
strip_line :
    (margin : Bytes) (c : ℕ) (keyword value : Bytes)
    → All (λ b. is_space b ≡ true) margin
    → is_space c ≡ false
    → IsValue value
    → strstrip (margin ++ ((c ∷ keyword) ++ value)) ≡ (c ∷ keyword) ++ value
strip_line [] c keyword value blank h v = rw h (chomp-append (c ∷ keyword) value v.0 v.2)
strip_line (b ∷ margin) c keyword value blank h v =
    rw blank.0 (strip_line margin c keyword value blank.1 h v)

abbrev pub pool_line : Bytes → Bytes
pool_line name = codes "   pool: " ++ name

abbrev pub id_line : Bytes → Bytes
id_line id = codes "     id: " ++ id

abbrev pub state_line : Bytes → Bytes
state_line state = codes "  state: " ++ state

strip_value : (value : Bytes) → IsValue value → strstrip (codes " " ++ value) ≡ value
strip_value value v = ap chomp v.1 ∙ v.2

pool_step :
    (name : Bytes) (s : Scan)
    → IsValue name
    → scan_trimmed (strstrip (pool_line name)) s ≡ (
        flush s.cur_name s.cur_id s.cur_state >>= (λ (added, i, st).
          some (record {
            cur_name = live name;
            cur_id = i;
            cur_state = st;
            infos = s.infos ++ added;
          })))
unfolding scan_trimmed
pool_step name s v =
    rw (strip_line (codes "   ") b'p' (codes "ool: ") name (refl, (refl, (refl, tt))) refl v)
      (rw (strip_value name v) refl)

id_step :
    (id : Bytes) (s : Scan)
    → IsValue id
    → s.cur_id ≡ null
    → scan_trimmed (strstrip (id_line id)) s ≡ some (record s { cur_id = live id })
unfolding scan_trimmed release
id_step id s v e =
    rw
      (strip_line (codes "     ") b'i' (codes "d: ") id (refl, (refl, (refl, (refl, (refl, tt)))))
        refl v)
      (rw (strip_value id v, e) refl)

state_step :
    (state : Bytes) (s : Scan)
    → IsValue state
    → scan_trimmed (strstrip (state_line state)) s
      ≡ (release s.cur_state >>= (λ _. some (record s { cur_state = live state })))
unfolding scan_trimmed
state_step state s v =
    rw (strip_line (codes "  ") b's' (codes "tate: ") state (refl, (refl, tt)) refl v)
      (rw (strip_value state v) refl)

-- A line that has none of the three keywords.
abbrev pub IsNote : Bytes → Type 0
IsNote line =
    (has_prefix (strstrip line) (codes "pool:") ≡ false)
    × (has_prefix (strstrip line) (codes "id:") ≡ false)
    × (has_prefix (strstrip line) (codes "state:") ≡ false)

notes_skipped :
    (notes rest : List Bytes) (s : Scan)
    → All IsNote notes
    → scan_lines (notes ++ rest) s ≡ scan_lines rest s
unfolding scan_lines scan_trimmed
notes_skipped [] rest s h = refl
notes_skipped (n ∷ notes) rest s h =
    let (a, b, c) = h.0 in rw (a, b, c) (notes_skipped notes rest s h.1)

-- One pool as `zpool import` prints it: three lines, and others without the keywords.
pub record Block : Type 0 where
  pub name : Bytes
  pub id : Bytes
  pub state : Bytes
  pub notes : List Bytes

abbrev pub IsBlock : Block → Type 0
IsBlock b = IsValue b.name × IsValue b.id × IsValue b.state × All IsNote b.notes

abbrev pub block_lines : Block → List Bytes
block_lines b = pool_line b.name ∷ id_line b.id ∷ state_line b.state ∷ b.notes

abbrev pub blocks_lines : List Block → List Bytes
blocks_lines [] = []
blocks_lines (b ∷ bs) = block_lines b ++ blocks_lines bs

abbrev pub block_info : Block → PoolInfo
block_info b = importable_info b.name b.id (parse_pool_state b.state)

in_block : Block → List PoolInfo → Scan
in_block b infos = record {
  cur_name = live b.name;
  cur_id = live b.id;
  cur_state = live b.state;
  infos = infos;
}

-- A block is read from any place where the one before it can be ended cleanly.
scan_block :
    (b : Block) (rest : List Bytes) (s : Scan) (added : List PoolInfo)
    → IsBlock b
    → flush s.cur_name s.cur_id s.cur_state ≡ some (added, null, null)
    → scan_lines (block_lines b ++ rest) s ≡ scan_lines rest (in_block b (s.infos ++ added))
unfolding scan_lines in_block release
scan_block b rest s added (n, i, st, notes) clean =
    let named : Scan = record {
      cur_name = live b.name;
      cur_id = null;
      cur_state = null;
      infos = s.infos ++ added;
    } in
    rw (pool_step b.name s n, clean)
      (rw (id_step b.id named i refl) (
        rw (state_step b.state (record named { cur_id = live b.id }) st)
          (notes_skipped b.notes rest (in_block b (s.infos ++ added)) notes)))

abbrev pub infos_of : List Block → List PoolInfo
infos_of [] = []
infos_of (b ∷ bs) = block_info b ∷ infos_of bs

scan_blocks :
    (bs : List Block) (s : Scan) (added : List PoolInfo)
    → All IsBlock bs
    → flush s.cur_name s.cur_id s.cur_state ≡ some (added, null, null)
    → (scan_lines (blocks_lines bs) s >>= last_block) ≡ some ((s.infos ++ added) ++ infos_of bs)
unfolding scan_lines last_block flush in_block current_state
scan_blocks [] s added h clean = rw (clean, append-nil (s.infos ++ added)) refl
scan_blocks (b ∷ bs) s added h clean =
    let rest : (scan_lines (blocks_lines bs) (in_block b (s.infos ++ added)) >>= last_block)
        ≡ some (((s.infos ++ added) ++ (block_info b ∷ [])) ++ infos_of bs) =
      scan_blocks bs (in_block b (s.infos ++ added)) (block_info b ∷ []) h.1 refl in
    rw (scan_block b (blocks_lines bs) s added h.0 clean)
      (rest ∙ ap some (append_assoc (s.infos ++ added) (block_info b ∷ []) (infos_of bs)))

-- No newline in any line, as where the output was split.
abbrev pub AreLines : List Bytes → Type 0
AreLines = All (Without b'\n')

-- Where `zpool import` prints at least one block, each a line with the name, one with the id and one
-- with the state, followed by lines without these keywords, and the values are not empty and have no
-- blanks at their ends, the pools are read back, all and in order, and no freed memory is used.
pub parse_importable-blocks :
    (b : Block) (bs : List Block)
    → All IsBlock (b ∷ bs)
    → AreLines (blocks_lines (b ∷ bs))
    → parse_importable (join b'\n' (blocks_lines (b ∷ bs))) ≡ some (infos_of (b ∷ bs))
unfolding parse_importable lines_of
parse_importable-blocks b bs h lines =
    rw
      (strsplit_set-join b'\n' (pool_line b.name)
        (id_line b.id ∷ state_line b.state ∷ b.notes ++ blocks_lines bs) lines refl refl)
      (scan_blocks (b ∷ bs) nothing_yet [] h refl)

-- Where a block has a name and a state but no id, and another block with a name and a state follows,
-- memory that was freed is used, whatever comes behind.
pub parse_importable-lost_id :
    (name state next_name next_state : Bytes) (notes rest : List Bytes)
    → IsValue name
    → IsValue state
    → IsValue next_name
    → IsValue next_state
    → All IsNote notes
    → AreLines (
        pool_line name
        ∷ state_line state
        ∷ (notes ++ (pool_line next_name ∷ state_line next_state ∷ rest)))
    → parse_importable (
        join b'\n' (
          pool_line name
          ∷ state_line state
          ∷ (notes ++ (pool_line next_name ∷ state_line next_state ∷ rest))))
      ≡ none
unfolding parse_importable lines_of scan_lines release flush
parse_importable-lost_id name state next_name next_state notes rest n st n' st' h lines =
    let first : Scan = record {
      cur_name = live name;
      cur_id = null;
      cur_state = live state;
      infos = [];
    } in
    let second : Scan = record {
      cur_name = live next_name;
      cur_id = null;
      cur_state = freed;
      infos = [];
    } in
    rw
      (strsplit_set-join b'\n' (pool_line name)
        (state_line state ∷ (notes ++ (pool_line next_name ∷ state_line next_state ∷ rest))) lines
        refl refl)
      (rw (pool_step name nothing_yet n) (
        rw (state_step state (record nothing_yet { cur_name = live name }) st) (
          rw (notes_skipped notes (pool_line next_name ∷ state_line next_state ∷ rest) first h)
            (rw (pool_step next_name first n') (rw (state_step next_state second st') refl)))))
