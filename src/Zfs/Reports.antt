-- ===== src/Zfs/Reports.antt =====
-- src/plugins/zfs.c: what is read out of the lines that `zpool` and `zfs` print with `-H -p`. A number
-- that g_ascii_strtod reads is kept as its text.
pub mod RoundTrip
pub mod Tests
use libblockdev.Base.{
  ℕ, ◌-◌, Option, none, some, List, [], ◌∷◌, Bool, ◌||◌, Bytes, is_empty, is_space, if◌then◌else◌,
  ◌==◌, bytes_eq, max_u64, strtoull_10, negate_u64, strsplit_set, codes,
}

-- `g_strsplit (output, "\n", -1)`
unfoldable pub lines_of : Bytes → List Bytes
unfolding strsplit_set
lines_of output = strsplit_set (λ c. c == b'\n') output

-- `g_strsplit (line, "\t", -1)`
unfoldable pub fields_of : Bytes → List Bytes
unfolding strsplit_set
fields_of line = strsplit_set (λ c. c == b'\t') line

unfoldable pub signed_u64 : Bytes → ℕ
unfolding strtoull_10 negate_u64
signed_u64 [] = 0
signed_u64 (c ∷ s) =
    if c == b'-'
    then negate_u64 (strtoull_10 s)
    else if c == b'+'
    then strtoull_10 s
    else strtoull_10 (c ∷ s)

-- `g_ascii_strtoull (s, NULL, 10)`: blanks, a sign, digits.
unfoldable pub strtoull : Bytes → ℕ
unfolding signed_u64
strtoull [] = 0
strtoull (c ∷ s) =
    let rest = strtoull s in if is_space c || c == 11 then rest else signed_u64 (c ∷ s)

-- `BDZFSPoolState` and `BDZFSVdevState` have the same values.
pub data State : Type 0 where
  online degraded faulted offline removed unavail unknown : State

unfoldable pub parse_pool_state : Bytes → State
parse_pool_state s =
    if bytes_eq s (codes "ONLINE")
    then online
    else if bytes_eq s (codes "DEGRADED")
    then degraded
    else if bytes_eq s (codes "FAULTED")
    then faulted
    else if bytes_eq s (codes "OFFLINE")
    then offline
    else if bytes_eq s (codes "REMOVED")
    then removed
    else if bytes_eq s (codes "UNAVAIL")
    then unavail
    else unknown

-- `strcmp (field, "-") == 0 ? NULL : field`
abbrev pub unless_dash : Bytes → Option Bytes
unless_dash s = if bytes_eq s (codes "-") then none else some s

pub record PoolInfo : Type 0 where
  pub name : Option Bytes
  pub guid : Option Bytes
  pub state : State
  pub size : ℕ
  pub allocated : ℕ
  pub free : ℕ
  pub fragmentation : ℕ
  pub dedup_ratio : Option Bytes
  pub altroot : Option Bytes
  pub ashift : Option Bytes
  pub readonly : Bool

pool_info_of : List Bytes → Option PoolInfo
unfolding parse_pool_state strtoull
pool_info_of (f0 ∷ f1 ∷ f2 ∷ f3 ∷ f4 ∷ f5 ∷ f6 ∷ f7 ∷ f8 ∷ f9 ∷ f10 ∷ rest) = some (record {
  name = some f0;
  guid = some f1;
  state = parse_pool_state f2;
  size = strtoull f3;
  allocated = strtoull f4;
  free = strtoull f5;
  fragmentation = strtoull f6;
  dedup_ratio = some f7;
  altroot = unless_dash f8;
  ashift = some f9;
  readonly = bytes_eq f10 (codes "on");
})
pool_info_of fields = none

unfoldable pub parse_pool_info_line : Bytes → Option PoolInfo
unfolding pool_info_of fields_of
parse_pool_info_line line = if is_empty line then none else pool_info_of (fields_of line)

pub record PropertyInfo : Type 0 where
  pub name : Bytes
  pub value : Bytes
  pub source : Bytes

unfoldable pub property_of : List Bytes → Option PropertyInfo
property_of (f0 ∷ f1 ∷ f2 ∷ f3 ∷ rest) = some (record { name = f1; value = f2; source = f3 })
property_of fields = none

unfoldable pub parse_property_line : Bytes → Option PropertyInfo
unfolding property_of fields_of
parse_property_line line = if is_empty line then none else property_of (fields_of line)

pub data DatasetType : Type 0 where
  filesystem volume snapshot bookmark unknown_type : DatasetType

unfoldable pub dataset_type : Bytes → DatasetType
dataset_type s =
    if bytes_eq s (codes "filesystem")
    then filesystem
    else if bytes_eq s (codes "volume")
    then volume
    else if bytes_eq s (codes "snapshot")
    then snapshot
    else if bytes_eq s (codes "bookmark")
    then bookmark
    else unknown_type

pub data KeyStatus : Type 0 where
  key_available key_unavailable key_none key_unknown : KeyStatus

unfoldable pub key_status_of : Bytes → KeyStatus
key_status_of s =
    if bytes_eq s (codes "available")
    then key_available
    else if bytes_eq s (codes "unavailable")
    then key_unavailable
    else if bytes_eq s (codes "-") || bytes_eq s (codes "none")
    then key_none
    else key_unknown

pub record DatasetInfo : Type 0 where
  pub name : Bytes
  pub type : DatasetType
  pub mountpoint : Option Bytes
  pub origin : Option Bytes
  pub used : ℕ
  pub available : ℕ
  pub referenced : ℕ
  pub compression : Bytes
  pub encryption : Option Bytes
  pub key_status : KeyStatus
  pub mounted : Bool

-- The eight fields that both forms begin with.
unfoldable pub dataset_common :
    Bytes
    → Bytes
    → Bytes
    → Bytes
    → Bytes
    → Bytes
    → Bytes
    → Bytes
    → Option Bytes
    → KeyStatus
    → Bool
    → DatasetInfo
unfolding dataset_type strtoull
dataset_common f0 f1 f2 f3 f4 f5 f6 f7 encryption status mounted = record {
  name = f0;
  type = dataset_type f1;
  mountpoint = if bytes_eq f2 (codes "-") || bytes_eq f2 (codes "none") then none else some f2;
  origin = unless_dash f3;
  used = strtoull f4;
  available = strtoull f5;
  referenced = strtoull f6;
  compression = f7;
  encryption = encryption;
  key_status = status;
  mounted = mounted;
}

unfoldable pub dataset_encrypted : List Bytes → Option DatasetInfo
unfolding dataset_common key_status_of
dataset_encrypted (f0 ∷ f1 ∷ f2 ∷ f3 ∷ f4 ∷ f5 ∷ f6 ∷ f7 ∷ f8 ∷ f9 ∷ f10 ∷ rest) = some (
    dataset_common f0 f1 f2 f3 f4 f5 f6 f7 (some f8) (key_status_of f9)
      (bytes_eq f10 (codes "yes")))
dataset_encrypted fields = none

dataset_plain : List Bytes → Option DatasetInfo
unfolding dataset_common
dataset_plain (f0 ∷ f1 ∷ f2 ∷ f3 ∷ f4 ∷ f5 ∷ f6 ∷ f7 ∷ f8 ∷ rest) =
    some (dataset_common f0 f1 f2 f3 f4 f5 f6 f7 none key_unknown (bytes_eq f8 (codes "yes")))
dataset_plain fields = none

unfoldable pub parse_dataset_info_line : Bool → Bytes → Option DatasetInfo
unfolding dataset_encrypted dataset_plain fields_of
parse_dataset_info_line has_encryption line =
    if is_empty line
    then none
    else if has_encryption
    then dataset_encrypted (fields_of line)
    else dataset_plain (fields_of line)

-- `strchr (s, c)`: what stands before it, all of `s` where there is none.
unfoldable pub before : ℕ → Bytes → Bytes
before c [] = []
before c (d ∷ s) = let rest = before c s in if d == c then [] else d ∷ rest

pub record SnapshotInfo : Type 0 where
  pub name : Bytes
  pub dataset : Bytes
  pub used : ℕ
  pub referenced : ℕ
  pub creation : Bytes

snapshot_of : List Bytes → Option SnapshotInfo
unfolding before strtoull
snapshot_of (f0 ∷ f1 ∷ f2 ∷ f3 ∷ rest) = some (record {
  name = f0;
  dataset = before b'@' f0;
  used = strtoull f1;
  referenced = strtoull f2;
  creation = f3;
})
snapshot_of fields = none

unfoldable pub parse_snapshot_info_line : Bytes → Option SnapshotInfo
unfolding snapshot_of fields_of
parse_snapshot_info_line line = if is_empty line then none else snapshot_of (fields_of line)

pub record BookmarkInfo : Type 0 where
  pub name : Bytes
  pub creation : ℕ

unfoldable pub bookmark_of : List Bytes → Option BookmarkInfo
unfolding strtoull
bookmark_of (f0 ∷ f1 ∷ rest) = some (record { name = f0; creation = strtoull f1 })
bookmark_of fields = none

unfoldable pub parse_bookmark_line : Bytes → Option BookmarkInfo
unfolding bookmark_of fields_of
parse_bookmark_line line = bookmark_of (fields_of line)

module _ {ℓ} {A : Type ℓ} (parse : Bytes → Option A) where
  -- The loop that lists: empty lines are passed over, and lines that are not understood.
  unfoldable pub parse_all : List Bytes → List A
  parse_all [] = []
  parse_all (line ∷ lines) =
      let rest = parse_all lines in
      if is_empty line then rest else elim (parse line) [ none ↦ rest | some a ↦ a ∷ rest ]

  -- The loop that asks for one thing: the first line that is not empty decides.
  unfoldable pub parse_first : List Bytes → Option A
  parse_first [] = none
  parse_first (line ∷ lines) =
      let rest = parse_first lines in if is_empty line then rest else parse line
