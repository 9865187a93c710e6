-- ===== src/Zfs/Version/Text.antt =====
-- What `normalize_zfs_version` extracts can be read by `sscanf`.
use libblockdev.Base.{
  ℕ, ◌≤◌, none, some, [], ◌∷◌, ◌++◌, Bool, true, false, ◌||◌, Bytes, is_empty, is_digit, any,
  if◌then◌else◌, ◌==◌, length, ◌≡◌, ◌≢◌, refl, ap, ◌∙◌, arith, Bool-cases, ◌⊎◌, inl, inr, subst,
}
use libblockdev.Zfs.Version.{
  dot_digit, version_run, from_digit, normalize_version, leading_digits, after_digits, scan_numbers,
}

-- Behind the first number nothing, or a dot and a digit.
TailOk : Bytes → Type 0
TailOk [] = Unit
TailOk (c ∷ t) = ((c == b'.') ≡ true) × (is_empty (leading_digits t) ≡ false)

starts_with_digit : Bytes → Bool
starts_with_digit [] = false
starts_with_digit (c ∷ s) = is_digit c

run-leading_digits :
    (s : Bytes) → starts_with_digit s ≡ true → is_empty (leading_digits (version_run s)) ≡ false
unfolding version_run leading_digits starts_with_digit
run-leading_digits [] h = cc
run-leading_digits (c ∷ s) h = rw h (rw h refl)

dot_digit-lem :
    (c d : ℕ) (s : Bytes)
    → dot_digit c (d ∷ s) ≡ true
    → ((c == b'.') ≡ true) × (is_empty (leading_digits (version_run (d ∷ s))) ≡ false)
unfolding dot_digit starts_with_digit
dot_digit-lem c d s h = (ground arith, run-leading_digits (d ∷ s) (ground arith))

run-TailOk : (s : Bytes) → TailOk (after_digits (version_run s))
unfolding TailOk version_run after_digits dot_digit leading_digits
run-TailOk [] = tt
run-TailOk (c ∷ []) = elim (Bool-cases (is_digit c)) [ inl e ↦ rw e (rw e tt) | inr e ↦ rw e tt ]
run-TailOk (c ∷ (d ∷ s)) = elim (Bool-cases (is_digit c)) [
  | inl e ↦ rw e (rw e (run-TailOk (d ∷ s)))
  | inr e ↦ elim (Bool-cases (dot_digit c (d ∷ s))) [
    | inl f ↦ rw (e, f) (rw e (dot_digit-lem c d s f))
    | inr f ↦ rw (e, f) tt
  ]
]

has_dot : Bytes → Bool
has_dot r = any (λ c. c == b'.') r

no_dot : (c : ℕ) (b : Bool) → is_digit c ≡ true → ((c == b'.') || b) ≡ true → b ≡ true
no_dot c b f h = ground arith

cons-nil : {c : ℕ} {r : Bytes} → ¬ (c ∷ r ≡ [])
cons-nil e = cc

dot-after_digits : (r : Bytes) → has_dot r ≡ true → after_digits r ≢ []
unfolding has_dot after_digits
dot-after_digits [] h e = cc
dot-after_digits (c ∷ r) h e = elim (Bool-cases (is_digit c)) [
  | inl f ↦
      dot-after_digits r (no_dot c (has_dot r) f h)
        (subst (λ b. (if b then after_digits r else c ∷ r) ≡ []) f e)
  | inr f ↦ cons-nil {c = c} {r = r} (subst (λ b. (if b then after_digits r else c ∷ r) ≡ []) f e)
]

from_digit-starts : (s : Bytes) → (from_digit s ≡ []) ⊎ (starts_with_digit (from_digit s) ≡ true)
unfolding from_digit starts_with_digit
from_digit-starts [] = inl refl
from_digit-starts (c ∷ s) = elim (Bool-cases (is_digit c)) [
  | inl e ↦ inr (rw e e)
  | inr e ↦ rw e (from_digit-starts s)
]

version_run-prefix : (s : Bytes) → (post : Bytes) × (s ≡ version_run s ++ post)
unfolding version_run
version_run-prefix [] = ([], refl)
version_run-prefix (c ∷ s) =
    let (post, e) = version_run-prefix s in cut (is_digit c || dot_digit c s) (version_run s) post e
  where
    cut :
        (b : Bool) (r post : Bytes)
        → s ≡ r ++ post
        → (p : Bytes) × ((c ∷ s) ≡ (if b then c ∷ r else []) ++ p)
    cut true r post e = (post, ap (◌∷◌ c) e)
    cut false r post e = (c ∷ s, refl)

from_digit-suffix : (s : Bytes) → (pre : Bytes) × (s ≡ pre ++ from_digit s)
unfolding from_digit
from_digit-suffix [] = ([], refl)
from_digit-suffix (c ∷ s) =
    let (pre, e) = from_digit-suffix s in skip (is_digit c) (from_digit s) pre e
  where
    skip :
        (b : Bool) (r pre : Bytes)
        → s ≡ pre ++ r
        → (p : Bytes) × ((c ∷ s) ≡ p ++ (if b then c ∷ s else r))
    skip true r pre e = ([], refl)
    skip false r pre e = (c ∷ pre, ap (◌∷◌ c) e)

two_numbers :
    (v tail : Bytes)
    → is_empty (leading_digits v) ≡ false
    → after_digits v ≡ tail
    → tail ≢ []
    → TailOk tail
    → 2 ≤ length (scan_numbers 3 v)
unfolding scan_numbers TailOk
two_numbers v [] hl e ne t = absurd (ne refl)
two_numbers v (c ∷ s) hl e ne (dot, lead) = rw (hl, e) (rw (dot, lead) (omega arith))

run_scans :
    (s : Bytes)
    → has_dot (version_run s) ≡ true
    → starts_with_digit s ≡ true
    → 2 ≤ length (scan_numbers 3 (version_run s))
run_scans s dot digit =
    two_numbers (version_run s) (after_digits (version_run s)) (run-leading_digits s digit) refl
      (dot-after_digits (version_run s) dot) (run-TailOk s)

no_run : (s : Bytes) → s ≡ [] → ¬ (has_dot (version_run s) ≡ true)
unfolding version_run has_dot
no_run [] e h = cc
no_run (c ∷ s) e h = cc

test-some :
    {A : Type 0} (b : Bool) (r : A) {v : A}
    → (if b then some r else none) ≡ some v
    → (b ≡ true) × (r ≡ v)
test-some true r h = (refl, cc)
test-some false r h = cc

-- A version that is extracted is a part of the text, and at least two numbers are read from it: the
-- test on the number of fields never fails for it.
normalize_version-scans :
    (raw : Bytes) {v : Bytes}
    → normalize_version raw ≡ some v
    → ((pre : Bytes) × (post : Bytes) × (raw ≡ pre ++ (v ++ post)))
      × (2 ≤ length (scan_numbers 3 v))
unfolding normalize_version has_dot
normalize_version-scans raw {v} h =
    let s = from_digit raw in
    let (dot, e) = test-some (has_dot (version_run s)) (version_run s) h in
    let (pre, e1) = from_digit-suffix raw in
    let (post, e2) = version_run-prefix s in
    let scans : 2 ≤ length (scan_numbers 3 (version_run s)) = elim (from_digit-starts raw) [
      | inl f ↦ absurd (no_run s f dot)
      | inr f ↦ run_scans s dot f
    ] in
    subst
      (λ x. ((p : Bytes) × (q : Bytes) × (raw ≡ p ++ (x ++ q))) × (2 ≤ length (scan_numbers 3 x))) e
      ((pre, post, e1 ∙ ap (λ t. pre ++ t) e2), scans)
