-- ===== src/Mdraid/Uuid.antt =====
-- The two forms of a UUID are translated into each other.
use libblockdev.Base.{
  ℕ, zero, suc, suc==zero, List, [], ◌∷◌, Bool, true, not, ◌==◌, ==_refl, ◌≡◌, ◌≢◌, refl, arith,
  Bytes, ok, all,
}
use libblockdev.Mdraid.{
  is_hex, hex4, byte, Place, match_here, match_any, md_pattern, canonical_pattern,
  canonicalize_uuid, get_md_uuid,
}

-- Four digits, and the eight fours of a UUID.
pub record Quad : Type 0 where
  pub a : ℕ
  pub b : ℕ
  pub c : ℕ
  pub d : ℕ

pub record Digits : Type 0 where
  pub q0 : Quad
  pub q1 : Quad
  pub q2 : Quad
  pub q3 : Quad
  pub q4 : Quad
  pub q5 : Quad
  pub q6 : Quad
  pub q7 : Quad

abbrev pub put : Quad → Bytes → Bytes
put q s = q.a ∷ q.b ∷ q.c ∷ q.d ∷ s

abbrev pub IsHexQuad : Quad → Type 0
IsHexQuad q = (is_hex q.a ≡ true) × (is_hex q.b ≡ true) × (is_hex q.c ≡ true) × (is_hex q.d ≡ true)

abbrev pub IsHex : Digits → Type 0
IsHex u =
    IsHexQuad u.q0
    × IsHexQuad u.q1
    × IsHexQuad u.q2
    × IsHexQuad u.q3
    × IsHexQuad u.q4
    × IsHexQuad u.q5
    × IsHexQuad u.q6
    × IsHexQuad u.q7

-- `3386ff85:f5012621:4a435f06:1eb47236` and what stands behind it.
abbrev pub md_text : Digits → Bytes → Bytes
md_text u s = put u.q0 (
    put u.q1
      (b':' ∷ put u.q2 (put u.q3 (b':' ∷ put u.q4 (put u.q5 (b':' ∷ put u.q6 (put u.q7 s)))))))

-- `3386ff85-f501-2621-4a43-5f061eb47236` and what stands behind it.
abbrev pub canonical_text : Digits → Bytes → Bytes
canonical_text u s = put u.q0 (
    put u.q1 (
      b'-'
      ∷ put u.q2 (b'-' ∷ put u.q3 (b'-' ∷ put u.q4 (b'-' ∷ put u.q5 (put u.q6 (put u.q7 s)))))))

match-put :
    (q : Quad) (ps : List Place) (s : Bytes)
    → IsHexQuad q
    → match_here ps s ≡ true
    → match_here (hex4 ps) (put q s) ≡ true
unfolding match_here
match-put q ps s (ha, hb, hc, hd) m = rw (ha, hb, hc, hd) m

match-byte :
    (b : ℕ) (ps : List Place) (s : Bytes)
    → match_here ps s ≡ true
    → match_here (byte b ∷ ps) (b ∷ s) ≡ true
unfolding match_here
match-byte b ps s m = rw (==_refl b) m

match-end : (s : Bytes) → match_here [] s ≡ true
unfolding match_here
match-end s = refl

match-md_text : (u : Digits) (s : Bytes) → IsHex u → match_here md_pattern (md_text u s) ≡ true
match-md_text u s (h0, h1, h2, h3, h4, h5, h6, h7) = match-put u.q0 _ _ h0 (
    match-put u.q1 _ _ h1 (
      match-byte b':' _ _ (
        match-put u.q2 _ _ h2 (
          match-put u.q3 _ _ h3 (
            match-byte b':' _ _ (
              match-put u.q4 _ _ h4 (
                match-put u.q5 _ _ h5 (
                  match-byte b':' _ _
                    (match-put u.q6 _ _ h6 (match-put u.q7 _ _ h7 (match-end s)))))))))))

match-canonical_text :
    (u : Digits) (s : Bytes) → IsHex u → match_here canonical_pattern (canonical_text u s) ≡ true
match-canonical_text u s (h0, h1, h2, h3, h4, h5, h6, h7) = match-put u.q0 _ _ h0 (
    match-put u.q1 _ _ h1 (
      match-byte b'-' _ _ (
        match-put u.q2 _ _ h2 (
          match-byte b'-' _ _ (
            match-put u.q3 _ _ h3 (
              match-byte b'-' _ _ (
                match-put u.q4 _ _ h4 (
                  match-byte b'-' _ _ (
                    match-put u.q5 _ _ h5
                      (match-put u.q6 _ _ h6 (match-put u.q7 _ _ h7 (match-end s))))))))))))

any_of_here :
    (ps : List Place) (c : ℕ) (s : Bytes)
    → match_here ps (c ∷ s) ≡ true
    → match_any ps (c ∷ s) ≡ true
unfolding match_any
any_of_here ps c s h = rw h refl

-- For any digits in lower case, each function turns the one form into the other, with its NUL; so they
-- are inverse to each other.
pub get_md_uuid-canonicalize_uuid :
    (u : Digits)
    → IsHex u
    → (canonicalize_uuid (md_text u []) ≡ ok (canonical_text u (0 ∷ [])))
      × (get_md_uuid (canonical_text u []) ≡ ok (md_text u (0 ∷ 0 ∷ [])))
unfolding canonicalize_uuid get_md_uuid
get_md_uuid-canonicalize_uuid u h = (
  rw (any_of_here md_pattern u.q0.a _ (match-md_text u [] h)) refl,
  rw (any_of_here canonical_pattern u.q0.a _ (match-canonical_text u [] h)) refl,
)

nonzero : ℕ → Bool
nonzero c = not (c == 0)

hex-nonzero : (c : ℕ) → is_hex c ≡ true → nonzero c ≡ true
unfolding nonzero
hex-nonzero c h = ground arith

nonzero-put :
    (q : Quad) (s : Bytes) → IsHexQuad q → all nonzero s ≡ true → all nonzero (put q s) ≡ true
nonzero-put q s (ha, hb, hc, hd) n =
    rw (hex-nonzero q.a ha, hex-nonzero q.b hb, hex-nonzero q.c hc, hex-nonzero q.d hd) n

one_nonzero : (c : ℕ) → c ≢ 0 → all nonzero (c ∷ []) ≡ true
unfolding nonzero
one_nonzero zero n = absurd (n refl)
one_nonzero (suc c) n = rw (suc==zero c) refl

nonzero-dash : (s : Bytes) → all nonzero s ≡ true → all nonzero (b'-' ∷ s) ≡ true
unfolding nonzero
nonzero-dash s n = n

nonzero-canonical_text :
    (u : Digits) (s : Bytes)
    → IsHex u
    → all nonzero s ≡ true
    → all nonzero (canonical_text u s) ≡ true
nonzero-canonical_text u s (h0, h1, h2, h3, h4, h5, h6, h7) n =
    let t5 = put u.q5 (put u.q6 (put u.q7 s)) in
    let n5 = nonzero-dash t5 (
      nonzero-put u.q5 (put u.q6 (put u.q7 s)) h5
        (nonzero-put u.q6 (put u.q7 s) h6 (nonzero-put u.q7 s h7 n))) in
    let t4 = put u.q4 (b'-' ∷ t5) in
    let n4 = nonzero-dash t4 (nonzero-put u.q4 (b'-' ∷ t5) h4 n5) in
    let t3 = put u.q3 (b'-' ∷ t4) in
    let n3 = nonzero-dash t3 (nonzero-put u.q3 (b'-' ∷ t4) h3 n4) in
    let t2 = put u.q2 (b'-' ∷ t3) in
    let n2 = nonzero-dash t2 (nonzero-put u.q2 (b'-' ∷ t3) h2 n3) in
    nonzero-put u.q0 (put u.q1 (b'-' ∷ t2)) h0 (nonzero-put u.q1 (b'-' ∷ t2) h1 n2)

-- The pattern is not anchored: a UUID with anything behind it is accepted too, and then the byte behind
-- the UUID stands where the NUL should be: no byte of the buffer that is returned is a NUL.
pub canonicalize_uuid_unterminated :
    (u : Digits) (c : ℕ) (s : Bytes)
    → IsHex u
    → c ≢ 0
    → (canonicalize_uuid (md_text u (c ∷ s)) ≡ ok (canonical_text u (c ∷ [])))
      × (all (λ b. not (b == 0)) (canonical_text u (c ∷ [])) ≡ true)
unfolding canonicalize_uuid nonzero
canonicalize_uuid_unterminated u c s h n = (
  rw (any_of_here md_pattern u.q0.a _ (match-md_text u (c ∷ s) h)) refl,
  nonzero-canonical_text u (c ∷ []) h (one_nonzero c n),
)
