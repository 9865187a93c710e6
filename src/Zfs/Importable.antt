-- ===== src/Zfs/Importable.antt =====
-- src/plugins/zfs.c (bd_zfs_pool_list_importable): the pools that `zpool import` prints as blocks of
-- lines. The three texts of the current block are pointers: NULL, to a text, or to memory that was
-- freed. `none` stands for a use of freed memory, whose effect C does not define.
use libblockdev.Base.{
  Option, none, some, List, [], ◌∷◌, ◌++◌, Bool, true, false, ◌||◌, Bytes, has_prefix, strstrip,
  if◌then◌else◌, is_empty, codes,
}
use libblockdev.Zfs.Reports.{PoolInfo, State, unknown, parse_pool_state, lines_of}
pub mod Blocks
pub mod Tests

pub data Ptr : Type 0 where
  null : Ptr
  live : Bytes → Ptr
  freed : Ptr

abbrev pub also : {A B : Type 0} → Option A → (A → Option B) → Option B
also none next = none
also (some a) next = next a

infixl 5 ◌>>=◌
abbrev pub ◌>>=◌ : {A B : Type 0} → Option A → (A → Option B) → Option B
m >>= next = also m next

-- `g_free (p)`: what `p` is behind it.
unfoldable pub release : Ptr → Option Ptr
release null = some null
release (live s) = some freed
release freed = none

-- `g_new0 (BDZFSPoolInfo, 1)` with three of its fields set.
abbrev pub importable_info : Bytes → Bytes → State → PoolInfo
importable_info name guid state = record {
  name = some name;
  guid = some guid;
  state = state;
  size = 0;
  allocated = 0;
  free = 0;
  fragmentation = 0;
  dedup_ratio = none;
  altroot = none;
  ashift = none;
  readonly = false;
}

-- `cur_state ? parse_pool_state (cur_state) : BD_ZFS_POOL_STATE_UNKNOWN`
unfoldable pub current_state : Ptr → Option State
unfolding parse_pool_state
current_state null = some unknown
current_state (live s) = some (parse_pool_state s)
current_state freed = none

-- The end of a block: the pool that is added, and what `cur_id` and `cur_state` are behind it.
unfoldable pub flush : Ptr → Ptr → Ptr → Option (List PoolInfo × Ptr × Ptr)
unfolding release current_state
flush (live n) (live i) state =
    current_state state >>= λ st. some (importable_info n i st ∷ [], null, null)
flush (live n) null state = release state >>= λ s. some ([], null, s)
flush (live n) freed state = none
flush null id state = release id >>= λ i. release state >>= λ s. some ([], i, s)
flush freed id state = none

pub record Scan : Type 0 where
  pub cur_name : Ptr
  pub cur_id : Ptr
  pub cur_state : Ptr
  pub infos : List PoolInfo

abbrev pub skip : Bytes → Bytes → Bytes
skip [] s = s
skip (p ∷ ps) [] = []
skip (p ∷ ps) (c ∷ s) = skip ps s

-- The text behind a keyword, `g_strdup (g_strstrip (trimmed + n))`.
abbrev pub behind : Bytes → Bytes → Ptr
behind keyword trimmed = live (strstrip (skip keyword trimmed))

unfoldable pub scan_trimmed : Bytes → Scan → Option Scan
unfolding flush release
scan_trimmed t s =
    if has_prefix t (codes "pool:")
    then flush s.cur_name s.cur_id s.cur_state >>= (λ (added, i, st). some (record {
      cur_name = behind (codes "pool:") t;
      cur_id = i;
      cur_state = st;
      infos = s.infos ++ added;
    }))
    else if has_prefix t (codes "id:")
    then release s.cur_id >>= (λ _. some (record s { cur_id = behind (codes "id:") t }))
    else if has_prefix t (codes "state:")
    then release s.cur_state >>= (λ _. some (record s { cur_state = behind (codes "state:") t }))
    else some s

unfoldable pub scan_lines : List Bytes → Scan → Option Scan
unfolding scan_trimmed
scan_lines [] s = some s
scan_lines (line ∷ lines) s = scan_trimmed (strstrip line) s >>= scan_lines lines

-- Behind the loop the last block is added.
unfoldable pub last_block : Scan → Option (List PoolInfo)
unfolding flush
last_block s = flush s.cur_name s.cur_id s.cur_state >>= λ r. some (s.infos ++ r.0)

abbrev pub nothing_yet : Scan
nothing_yet = record { cur_name = null; cur_id = null; cur_state = null; infos = [] }

unfoldable pub parse_importable : Bytes → Option (List PoolInfo)
unfolding scan_lines last_block lines_of
parse_importable output =
    if is_empty output then some [] else scan_lines (lines_of output) nothing_yet >>= last_block
