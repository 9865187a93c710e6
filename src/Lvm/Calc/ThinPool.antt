-- ===== src/Lvm/Calc/ThinPool.antt =====
-- Thin pools: padding and metadata.
use libblockdev.Base.{
  ℕ, ◌+◌, ◌*◌, ◌/◌, ◌%◌, ◌^◌, ◌≤◌, ◌<◌, Bool, true, max_u64, ◌≡◌, ◌⊎◌, inl, inr, arith, subst,
}
use Prim.Native.Nat.{min}
use native.Mathlib.Nat.{zero-div}
use libblockdev.Lvm.Calc.Rounding.{round_size_to_pe-IsRounded, IsRounded}
use libblockdev.Lvm.Calc.{
  resolve_pe_size, round_size_to_pe, get_thpool_padding, get_thpool_meta_size, min_thpool_md_size,
  clamp_md_size, resolve_chunk_size, is_valid_thpool_md_size,
}

min_cases : (a b : ℕ) → (min a b ≡ a) ⊎ (min a b ≡ b)
min_cases a b = grind arith

resolve_again : (pe : ℕ) → resolve_pe_size (resolve_pe_size pe) ≡ resolve_pe_size pe
unfolding resolve_pe_size
resolve_again pe = ground arith

clamp_md_size_valid :
    (max_md md : ℕ)
    → min_thpool_md_size ≤ max_md
    → is_valid_thpool_md_size max_md (clamp_md_size max_md md) ≡ true
unfolding is_valid_thpool_md_size clamp_md_size
clamp_md_size_valid max_md md h = ground arith

clamp_md_size_inside :
    (max_md md : ℕ) → min_thpool_md_size ≤ md → md ≤ max_md → clamp_md_size max_md md ≡ md
unfolding clamp_md_size
clamp_md_size_inside max_md md lo hi = ground arith

clamp_md_size-zero :
    (max_md : ℕ) → min_thpool_md_size ≤ max_md → clamp_md_size max_md 0 ≡ min_thpool_md_size
unfolding clamp_md_size
clamp_md_size-zero max_md h = ground arith

-- The recommended size of the metadata is valid for every pool and chunk size, provided that the
-- greatest metadata size of the device mapper is not below the least.
get_thpool_meta_size_valid :
    (max_md size chunk_size : ℕ)
    → min_thpool_md_size ≤ max_md
    → is_valid_thpool_md_size max_md (get_thpool_meta_size max_md size chunk_size) ≡ true
unfolding get_thpool_meta_size
get_thpool_meta_size_valid max_md size chunk_size h =
    clamp_md_size_valid max_md (64 * size % 2 ^ 64 / resolve_chunk_size chunk_size) h

-- Where the pool is at most 256 PiB less one byte, a value between the limits is the intended one, 64
-- bytes for each chunk.
get_thpool_meta_size_exact :
    (max_md size chunk_size : ℕ)
    → size < 2 ^ 58
    → min_thpool_md_size ≤ 64 * size / resolve_chunk_size chunk_size
    → 64 * size / resolve_chunk_size chunk_size ≤ max_md
    → get_thpool_meta_size max_md size chunk_size ≡ 64 * size / resolve_chunk_size chunk_size
unfolding get_thpool_meta_size
get_thpool_meta_size_exact max_md size chunk_size h lo hi =
    let e : 64 * size % 2 ^ 64 ≡ 64 * size = omega (arith, h) in
    rw e (clamp_md_size_inside max_md (64 * size / resolve_chunk_size chunk_size) lo hi)

-- The product overflows for larger pools: at every multiple of 256 PiB it is 0 in 64 bits, and the
-- least metadata size is recommended, whatever the chunk size.
pub get_thpool_meta_size_wraps :
    (max_md k chunk_size : ℕ)
    → min_thpool_md_size ≤ max_md
    → get_thpool_meta_size max_md (k * 2 ^ 58) chunk_size ≡ min_thpool_md_size
unfolding get_thpool_meta_size
get_thpool_meta_size_wraps max_md k chunk_size h =
    let e : 64 * (k * 2 ^ 58) % 2 ^ 64 ≡ 0 = omega arith in
    rw (e, zero-div (resolve_chunk_size chunk_size)) (clamp_md_size-zero max_md h)

-- The padding of a thin pool is a whole number of extents, and never more than what the greatest
-- metadata takes.
pub get_thpool_padding_lem :
    (max_md : ℕ) (scaled : Bool → ℕ → ℕ) (size pe : ℕ) (included : Bool)
    → max_md ≤ max_u64
    → scaled included size ≤ max_u64
    → (get_thpool_padding max_md scaled size pe included % resolve_pe_size pe ≡ 0)
      × (get_thpool_padding max_md scaled size pe included < max_md + resolve_pe_size pe)
unfolding get_thpool_padding
get_thpool_padding_lem max_md scaled size pe included m s =
    let p : ℕ = resolve_pe_size pe in
    let own : IsRounded (scaled included size) p true
        (round_size_to_pe (scaled included size) p true) =
      subst
        (λ q.
          IsRounded (scaled included size) q true (round_size_to_pe (scaled included size) p true))
        (resolve_again pe) (round_size_to_pe-IsRounded (scaled included size) p true s) in
    let most : IsRounded max_md p true (round_size_to_pe max_md p true) =
      subst (λ q. IsRounded max_md q true (round_size_to_pe max_md p true)) (resolve_again pe)
        (round_size_to_pe-IsRounded max_md p true m) in
    (
      (elim (min_cases (round_size_to_pe (scaled included size) p true)
          (round_size_to_pe max_md p true)) [ inl e ↦ rw e (own.0) | inr e ↦ rw e (most.0) ]),
      omega (arith, most.2),
    )
