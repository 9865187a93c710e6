-- ===== src/Mdraid/Superblock.antt =====
-- What the loop over the headroom finds.
use libblockdev.Base.{
  ℕ, zero, suc, ◌*◌, ◌%◌, ◌≤◌, ◌<◌, Option, true, false, ◌≡◌, ◌⊎◌, inl, inr, Bool-cases, refl,
  arith, Bytes,
}
use libblockdev.Mdraid.{mib, headroom_loop, new_layout, get_superblock_size}

-- A size between the limits that the loop may stop at.
abbrev pub Between : ℕ → ℕ → Type 0
Between m r =
    (mib ≤ r)
    × (128 * mib % r ≡ 0)
    × ((r * 1024 ≤ m) ⊎ (r ≡ mib))
    × ((m < r * 2 * 1024) ⊎ (r ≡ 128 * mib))

loop-Between : (m : ℕ) → Between m (headroom_loop 7 m (128 * mib))
unfolding headroom_loop
loop-Between m = ground arith

at_limit : (fuel m : ℕ) → headroom_loop fuel m mib ≡ mib
unfolding headroom_loop
at_limit zero m = refl
at_limit (suc fuel) m = ground arith

loop_stops :
    (m more : ℕ)
    → headroom_loop (suc (suc (suc (suc (suc (suc (suc more))))))) m (128 * mib)
      ≡ headroom_loop 7 m (128 * mib)
unfolding headroom_loop
loop_stops m more = rw (at_limit more m) refl

-- For the layouts 1.1, 1.2 and the default, the size is one of 1, 2, 4, … 128 MiB: the greatest of them
-- that is no more than a 1024th of the member, or 1 MiB if there is none; and seven rounds of the loop
-- are enough, more of them give the same. For every other layout it is 2 MiB.
pub get_superblock_size_lem :
    (member_size more : ℕ) (version : Option Bytes)
    → ((new_layout version ≡ true)
        × Between member_size (get_superblock_size member_size version)
        × (headroom_loop (suc (suc (suc (suc (suc (suc (suc more))))))) member_size (128 * mib)
            ≡ get_superblock_size member_size version))
      ⊎ ((new_layout version ≡ false) × (get_superblock_size member_size version ≡ 2 * mib))
unfolding get_superblock_size
get_superblock_size_lem member_size more version = elim (Bool-cases (new_layout version)) [
  | inl e ↦ inl (rw e (refl, loop-Between member_size, loop_stops member_size more))
  | inr e ↦ inr (rw e (refl, refl))
]
