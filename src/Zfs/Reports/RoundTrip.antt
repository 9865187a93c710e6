-- ===== src/Zfs/Reports/RoundTrip.antt =====
-- What the tools print is read back: a printer for each kind of line, and the parsers behind it.
use libblockdev.Base.{
  ℕ, ◌≤◌, Option, none, some, List, [], ◌∷◌, ◌++◌, Bool, true, false, ◌||◌, Bytes, is_empty,
  bytes_eq, max_u64, decimal, strtoull_10, if◌then◌else◌, codes, ◌≡◌, refl, ap, ◌∙◌, arith, All,
  map,
}
use libblockdev.Base.Decimal.{digit_first, decimal-digit_first, strtoull_10-decimal}
use libblockdev.Base.Join.{Without, join, strsplit_set-join}
use libblockdev.Zfs.Reports.{
  PropertyInfo, DatasetInfo, DatasetType, filesystem, volume, snapshot, bookmark, unknown_type,
  KeyStatus, key_available, key_unavailable, key_none, key_unknown, strtoull, signed_u64,
  dataset_type, key_status_of, dataset_common, dataset_encrypted, property_of, fields_of, parse_all,
  parse_property_line, parse_dataset_info_line, unless_dash,
}

strtoull-digit : (s : Bytes) → digit_first s ≡ true → strtoull s ≡ strtoull_10 s
unfolding strtoull signed_u64
strtoull-digit [] h = cc
strtoull-digit (c ∷ s) h = ground arith

strtoull-decimal : (n : ℕ) → n ≤ max_u64 → strtoull (decimal n) ≡ n
strtoull-decimal n h = strtoull-digit (decimal n) (decimal-digit_first n) ∙ strtoull_10-decimal n h

-- A field holds no tab and no newline.
abbrev pub IsField : Bytes → Type 0
IsField s = Without b'\t' s × Without b'\n' s

module _ {A : Type 0} (parse : Bytes → Option A) (print : A → Bytes) (Ok : A → Type 0) where
  parse_all-map :
      ((a : A) → Ok a → (parse (print a) ≡ some a) × (is_empty (print a) ≡ false))
      → (as' : List A) → All Ok as'
      → parse_all parse (map print as') ≡ as'
  unfolding parse_all
  parse_all-map back [] h = refl
  parse_all-map back (a ∷ as') h =
      let (p, e) = back a h.0 in rw (e, p) (ap (◌∷◌ a) (parse_all-map back as' h.1))

-- The empty line behind the last newline of the output is passed over.
pub parse_all-last :
    {A : Type 0} (parse : Bytes → Option A) (lines : List Bytes)
    → parse_all parse (lines ++ ([] ∷ [])) ≡ parse_all parse lines
unfolding parse_all
parse_all-last parse [] = refl
parse_all-last {A} parse (l ∷ lines) =
    ap
      (λ (rest : List A).
        if is_empty l then rest else elim (parse l) [ none ↦ rest | some a ↦ a ∷ rest ])
      (parse_all-last parse lines)

-- `zpool get -H -p`: the name of the pool, the property, its value and source.
abbrev pub print_property : Bytes → PropertyInfo → Bytes
print_property pool i = join b'\t' (pool ∷ i.name ∷ i.value ∷ i.source ∷ [])

abbrev pub IsProperty : PropertyInfo → Type 0
IsProperty i = Without b'\t' i.name × Without b'\t' i.value × Without b'\t' i.source

join_not_empty : (d b : Bytes) (ds : List Bytes) → is_empty (join b'\t' (d ∷ (b ∷ ds))) ≡ false
join_not_empty [] b ds = refl
join_not_empty (c ∷ d) b ds = refl

fields-join :
    (d b : Bytes) (ds : List Bytes)
    → All (Without b'\t') (d ∷ (b ∷ ds))
    → fields_of (join b'\t' (d ∷ (b ∷ ds))) ≡ d ∷ (b ∷ ds)
unfolding fields_of
fields-join d b ds h = strsplit_set-join b'\t' d (b ∷ ds) h refl (join_not_empty d b ds)

pub printed_not_empty : (pool : Bytes) (i : PropertyInfo) → is_empty (print_property pool i) ≡ false
printed_not_empty pool i = join_not_empty pool i.name (i.value ∷ i.source ∷ [])

property_back :
    (pool : Bytes) (i : PropertyInfo)
    → Without b'\t' pool
    → IsProperty i
    → parse_property_line (print_property pool i) ≡ some i
unfolding parse_property_line property_of
property_back pool i hp (n, v, s) =
    rw
      (
        join_not_empty pool i.name (i.value ∷ i.source ∷ []),
        fields-join pool i.name (i.value ∷ i.source ∷ []) (hp, (n, (v, (s, tt)))),
      )
      refl

-- Properties whose names, values and sources hold no tab, of a pool or dataset whose name holds none, are
-- read back from the lines that the tools print for them: all, in order, and nothing else.
pub parse_all-properties :
    (pool : Bytes) (is : List PropertyInfo)
    → Without b'\t' pool
    → All IsProperty is
    → parse_all parse_property_line (map (print_property pool) is) ≡ is
parse_all-properties pool is hp h =
    parse_all-map parse_property_line (print_property pool) IsProperty
      (λ i ok_. (property_back pool i hp ok_, printed_not_empty pool i)) is h

abbrev pub print_type : DatasetType → Bytes
print_type filesystem = codes "filesystem"
print_type volume = codes "volume"
print_type snapshot = codes "snapshot"
print_type bookmark = codes "bookmark"
print_type unknown_type = codes "unknown"

abbrev pub print_status : KeyStatus → Bytes
print_status key_available = codes "available"
print_status key_unavailable = codes "unavailable"
print_status key_none = codes "-"
print_status key_unknown = codes "unknown"

abbrev pub or_dash : Option Bytes → Bytes
or_dash none = codes "-"
or_dash (some s) = s

abbrev pub print_mounted : Bool → Bytes
print_mounted true = codes "yes"
print_mounted false = codes "no"

abbrev pub later_columns : Bytes → DatasetInfo → List Bytes
later_columns encryption i =
    or_dash i.mountpoint
    ∷ or_dash i.origin
    ∷ decimal i.used
    ∷ decimal i.available
    ∷ decimal i.referenced
    ∷ i.compression
    ∷ encryption
    ∷ print_status i.key_status
    ∷ print_mounted i.mounted
    ∷ []

-- `zfs list -H -p` with the eleven fields.
abbrev pub dataset_columns : Bytes → DatasetInfo → List Bytes
dataset_columns encryption i = i.name ∷ print_type i.type ∷ later_columns encryption i

type_back : (t : DatasetType) → dataset_type (print_type t) ≡ t
unfolding dataset_type
type_back filesystem = refl
type_back volume = refl
type_back snapshot = refl
type_back bookmark = refl
type_back unknown_type = refl

status_back : (k : KeyStatus) → key_status_of (print_status k) ≡ k
unfolding key_status_of
status_back key_available = refl
status_back key_unavailable = refl
status_back key_none = refl
status_back key_unknown = refl

mounted_back : (b : Bool) → bytes_eq (print_mounted b) (codes "yes") ≡ b
mounted_back true = refl
mounted_back false = refl

-- A text that stands for itself: neither `-` nor `none`.
abbrev pub IsPlace : Option Bytes → Type 0
IsPlace none = Unit
IsPlace (some s) = (bytes_eq s (codes "-") ≡ false) × (bytes_eq s (codes "none") ≡ false)

mountpoint_back :
    (m : Option Bytes)
    → IsPlace m
    → (if bytes_eq (or_dash m) (codes "-") || bytes_eq (or_dash m) (codes "none")
        then none
        else some (or_dash m))
      ≡ m
mountpoint_back none h = refl
mountpoint_back (some s) (a, b) = rw (a, b) refl

origin_back : (o : Option Bytes) → IsPlace o → unless_dash (or_dash o) ≡ o
origin_back none h = refl
origin_back (some s) (a, b) = rw a refl

abbrev pub IsDataset : Bytes → DatasetInfo → Type 0
IsDataset encryption i =
    (i.encryption ≡ some encryption)
    × IsPlace i.mountpoint
    × IsPlace i.origin
    × (i.used ≤ max_u64)
    × (i.available ≤ max_u64)
    × (i.referenced ≤ max_u64)
    × All (Without b'\t') (dataset_columns encryption i)

common_back :
    (encryption : Bytes) (i : DatasetInfo)
    → IsDataset encryption i
    → dataset_encrypted (dataset_columns encryption i) ≡ some i
unfolding dataset_encrypted dataset_common
common_back encryption i (e, m, o, u, a, r, _) =
    rw
      (
        type_back i.type,
        status_back i.key_status,
        mounted_back i.mounted,
        mountpoint_back i.mountpoint m,
        origin_back i.origin o,
        strtoull-decimal i.used u,
        strtoull-decimal i.available a,
        strtoull-decimal i.referenced r,
        ← e,
      )
      refl

dataset_back :
    (encryption : Bytes) (i : DatasetInfo)
    → IsDataset encryption i
    → parse_dataset_info_line true (join b'\t' (dataset_columns encryption i)) ≡ some i
unfolding parse_dataset_info_line
dataset_back encryption i h =
    rw (join_not_empty i.name (print_type i.type) _, fields-join i.name (print_type i.type) _ h.6)
      (common_back encryption i h)

-- Datasets are read back from the lines that `zfs list -H -p` prints for them where encryption is known:
-- all, in order, and nothing else. No column holds a tab, the sizes fit into 64 bits, a mountpoint and
-- an origin are neither `-` nor `none`, and all have the same encryption.
pub parse_all-datasets :
    (encryption : Bytes) (is : List DatasetInfo)
    → All (IsDataset encryption) is
    → parse_all
        (parse_dataset_info_line true)
        (map (λ i. join b'\t' (dataset_columns encryption i)) is)
      ≡ is
parse_all-datasets encryption is h =
    parse_all-map (parse_dataset_info_line true) (λ i. join b'\t' (dataset_columns encryption i))
      (IsDataset encryption)
      (λ i ok_. (
        dataset_back encryption i ok_,
        join_not_empty i.name (print_type i.type) (later_columns encryption i),
      ))
      is h
