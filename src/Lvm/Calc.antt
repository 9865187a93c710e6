-- ===== src/Lvm/Calc.antt =====
-- src/plugins/lvm/lvm-common.c and lvm-private.h: calculations with sizes in bytes, in 64 bits.
pub mod Rounding
pub mod ThinPool
use libblockdev.Base.{
  ℕ, zero, suc, ◌+◌, ◌-◌, ◌*◌, ◌/◌, ◌%◌, ◌^◌, List, [], ◌∷◌, Bool, true, false, ◌&&◌, if◌then◌else◌,
  ◌==◌, ltb, leb, max_u64,
}
use Prim.Native.Nat.{min, max}

abbrev pub kib : ℕ
kib = 1024

abbrev pub mib : ℕ
mib = 1048576

abbrev pub gib : ℕ
gib = 1073741824

abbrev pub default_pe_size : ℕ
default_pe_size = 4 * mib

abbrev pub min_pe_size : ℕ
min_pe_size = kib

abbrev pub max_pe_size : ℕ
max_pe_size = 16 * gib

-- RESOLVE_PE_SIZE
unfoldable pub resolve_pe_size : ℕ → ℕ
resolve_pe_size size = if size == 0 then default_pe_size else size

-- The body behind the resolution of the extent size.
unfoldable pub round_to : ℕ → ℕ → Bool → ℕ
round_to size pe roundup =
    let delta = size % pe in
    if delta == 0
    then size
    else if roundup && leb size (max_u64 - (pe - delta))
    then size + (pe - delta)
    else size - delta

unfoldable pub round_size_to_pe : ℕ → ℕ → Bool → ℕ
unfolding resolve_pe_size round_to
round_size_to_pe size pe_size roundup = round_to size (resolve_pe_size pe_size) roundup

unfoldable pub get_lv_physical_size : ℕ → ℕ → ℕ
unfolding resolve_pe_size round_size_to_pe
get_lv_physical_size lv_size pe_size = round_size_to_pe lv_size (resolve_pe_size pe_size) true

unfoldable pub is_supported_pe_size : ℕ → Bool
is_supported_pe_size size = size % 2 == 0 && (leb min_pe_size size && leb size max_pe_size)

-- The loop of `bd_lvm_get_supported_pe_sizes`; one round for each size up to the greatest, and the
-- closing 0 of the array is left out.
pe_sizes_from : ℕ → ℕ → List ℕ
pe_sizes_from zero val = []
pe_sizes_from (suc fuel) val =
    let rest = val ∷ pe_sizes_from fuel (val * 2 % 2 ^ 64) in
    if leb val max_pe_size then rest else []

unfoldable pub get_supported_pe_sizes : List ℕ
unfolding pe_sizes_from
get_supported_pe_sizes = pe_sizes_from 64 min_pe_size

abbrev pub min_thpool_md_size : ℕ
min_thpool_md_size = 4 * mib

-- `DM_THIN_MAX_METADATA_SIZE * 512`; the first factor is of libdevmapper, so the product is an argument
-- of what uses it. The two factors of the padding are floating-point numbers: the product that is
-- rounded up is an argument too.
unfoldable pub get_thpool_padding : ℕ → (Bool → ℕ → ℕ) → ℕ → ℕ → Bool → ℕ
unfolding resolve_pe_size round_size_to_pe
get_thpool_padding max_md scaled size pe_size included =
    let pe = resolve_pe_size pe_size in
    min (round_size_to_pe (scaled included size) pe true) (round_size_to_pe max_md pe true)

abbrev pub resolve_chunk_size : ℕ → ℕ
resolve_chunk_size chunk_size = if chunk_size == 0 then 64 * kib else chunk_size

-- The limits at the end of the function.
unfoldable pub clamp_md_size : ℕ → ℕ → ℕ
clamp_md_size max_md md_size =
    if ltb max_md md_size
    then max_md
    else if ltb md_size min_thpool_md_size
    then min_thpool_md_size
    else md_size

unfoldable pub get_thpool_meta_size : ℕ → ℕ → ℕ → ℕ
unfolding clamp_md_size
get_thpool_meta_size max_md size chunk_size =
    clamp_md_size max_md (64 * size % 2 ^ 64 / resolve_chunk_size chunk_size)

unfoldable pub is_valid_thpool_md_size : ℕ → ℕ → Bool
is_valid_thpool_md_size max_md size = leb min_thpool_md_size size && leb size max_md

-- The test whether the base-2 logarithm is whole, in floating-point numbers, is an argument.
unfoldable pub is_valid_thpool_chunk_size : (ℕ → Bool) → ℕ → Bool → Bool
is_valid_thpool_chunk_size log2_is_whole size discard =
    if ltb size (64 * kib)
    then false
    else if ltb gib size
    then false
    else if discard
    then log2_is_whole size
    else size % (64 * kib) == 0

unfoldable pub cache_get_default_md_size : ℕ → ℕ
cache_get_default_md_size cache_size = max (cache_size / 1000) (8 * mib)
