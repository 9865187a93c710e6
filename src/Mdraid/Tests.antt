-- ===== src/Mdraid/Tests.antt =====
-- Concrete runs of src/plugins/mdraid.c.
use libblockdev.Base.{
  ℕ, suc, ◌*◌, none, [], ◌∷◌, true, false, not, ◌==◌, ◌≡◌, ◌⊎◌, refl, codes, ok, all, arith,
}
use libblockdev.Mdraid.{
  mib, new_layout, headroom_loop, get_superblock_size, canonicalize_uuid, get_md_uuid,
}
use libblockdev.Mdraid.Superblock.{Between, get_superblock_size_lem}
use libblockdev.Mdraid.Uuid.{
  Quad, Digits, IsHex, md_text, canonical_text, get_md_uuid-canonicalize_uuid,
  canonicalize_uuid_unterminated,
}

abbrev quad : ℕ → Quad
quad c = record { a = c; b = b'8'; c = b'f'; d = b'0' }

-- 38f0a8f0:18f0c8f0:48f058f0:68f078f0
abbrev digits : Digits
digits = record {
  q0 = quad b'3';
  q1 = quad b'a';
  q2 = quad b'1';
  q3 = quad b'c';
  q4 = quad b'4';
  q5 = quad b'5';
  q6 = quad b'6';
  q7 = quad b'7';
}

digits-IsHex : IsHex digits
digits-IsHex = (
  (refl, refl, refl, refl),
  (refl, refl, refl, refl),
  (refl, refl, refl, refl),
  (refl, refl, refl, refl),
  (refl, refl, refl, refl),
  (refl, refl, refl, refl),
  (refl, refl, refl, refl),
  (refl, refl, refl, refl),
)

get_md_uuid-canonicalize_uuid_example :
    (canonicalize_uuid (md_text digits []) ≡ ok (canonical_text digits (0 ∷ [])))
    × (get_md_uuid (canonical_text digits []) ≡ ok (md_text digits (0 ∷ 0 ∷ [])))
get_md_uuid-canonicalize_uuid_example = get_md_uuid-canonicalize_uuid digits digits-IsHex

colon_nonzero : ¬ (◌≡◌ {A = ℕ} b':' 0)
colon_nonzero e = absurd (omega arith)

canonicalize_uuid_unterminated_example :
    (canonicalize_uuid (md_text digits (b':' ∷ codes "0")) ≡ ok (canonical_text digits (b':' ∷ [])))
    × (all (λ b. not (b == 0)) (canonical_text digits (b':' ∷ [])) ≡ true)
canonicalize_uuid_unterminated_example =
    canonicalize_uuid_unterminated digits b':' (codes "0") digits-IsHex colon_nonzero

-- A member of 10 GiB has room for 8 MiB.
ten_gib : get_superblock_size 10737418240 none ≡ 8 * mib
unfolding get_superblock_size
ten_gib = refl

get_superblock_size_example :
    ((new_layout none ≡ true)
      × Between 10737418240 (get_superblock_size 10737418240 none)
      × (headroom_loop (suc (suc (suc (suc (suc (suc (suc 5))))))) 10737418240 (128 * mib)
          ≡ get_superblock_size 10737418240 none))
    ⊎ ((new_layout none ≡ false) × (get_superblock_size 10737418240 none ≡ 2 * mib))
get_superblock_size_example = get_superblock_size_lem 10737418240 5 none
