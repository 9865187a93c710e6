-- ===== src/Zfs/Names.antt =====
-- src/plugins/zfs.c (validate_name_not_option, bd_zfs_validate_pool_name): what is accepted as a name.
use libblockdev.Base.{
  ℕ, ◌<◌, Option, none, some, [], ◌∷◌, ◌++◌, Bool, true, false, not, ◌&&◌, ◌||◌, Bytes, is_empty,
  is_alpha, is_alnum, if◌then◌else◌, ◌==◌, leb, length, all, eq_nocase, has_prefix_nocase, Result,
  ok, err, GError, zfs_fail, fail, codes, ◌≡◌, refl, ◌≢◌, arith, ◌↔◌,
}

abbrev pub starts_with_dash : Bytes → Bool
starts_with_dash [] = false
starts_with_dash (c ∷ s) = c == b'-'

unfoldable pub validate_name_not_option : Option Bytes → Bytes → Result (Unit {0})
validate_name_not_option none param = fail zfs_fail (param ++ codes " cannot be NULL or empty")
validate_name_not_option (some name) param =
    if is_empty name
    then fail zfs_fail (param ++ codes " cannot be NULL or empty")
    else if starts_with_dash name
    then fail zfs_fail (param ++ codes " cannot start with '-': " ++ name)
    else ok tt

abbrev pub allowed : ℕ → Bool
allowed c = is_alnum c || (c == b'_' || (c == b'-' || (c == b'.' || c == b':')))

-- The loop over the characters stops at the first that is not allowed.
first_invalid : Bytes → Option ℕ
first_invalid [] = none
first_invalid (c ∷ s) = if not (allowed c) then some c else first_invalid s

abbrev pub starts_with_letter : Bytes → Bool
starts_with_letter [] = false
starts_with_letter (c ∷ s) = is_alpha c

unfoldable pub reserved : Bytes → Bool
reserved name =
    has_prefix_nocase name (codes "mirror")
    || (has_prefix_nocase name (codes "raidz")
        || (has_prefix_nocase name (codes "draid")
            || (has_prefix_nocase name (codes "spare") || eq_nocase name (codes "log"))))

check_reserved : Bytes → Option ℕ → Result (Unit {0})
unfolding reserved
check_reserved name (some c) = fail zfs_fail (
    codes "Pool name contains invalid character '" ++ (c ∷ []) ++ codes "': '" ++ name ++ codes "'")
check_reserved name none =
    if reserved name
    then fail zfs_fail
        (codes "Pool name '" ++ name ++ codes "' conflicts with a reserved vdev type name")
    else ok tt

unfoldable pub validate_pool_name : Option Bytes → Result (Unit {0})
unfolding first_invalid check_reserved
validate_pool_name none = fail zfs_fail (codes "Pool name cannot be NULL or empty")
validate_pool_name (some name) =
    if is_empty name
    then fail zfs_fail (codes "Pool name cannot be NULL or empty")
    else if leb 240 (length name)
    then fail zfs_fail (codes "Pool name exceeds maximum length of 239 characters")
    else if not (starts_with_letter name)
    then fail zfs_fail (codes "Pool name must begin with a letter: '" ++ name ++ codes "'")
    else check_reserved name (first_invalid name)

-- A name that no program takes for an option: at least one character, and the first is no dash.
abbrev pub NotOption : Bytes → Type 0
NotOption s = (s ≢ []) × (starts_with_dash s ≡ false)

-- The rules for the name of a pool.
abbrev pub IsPoolName : Bytes → Type 0
IsPoolName s =
    (length s < 240) × (starts_with_letter s ≡ true) × (all allowed s ≡ true) × (reserved s ≡ false)

kept_iff :
    (c : ℕ) (b r : Bool) {rest : Option ℕ}
    → (rest ≡ none) ↔ (r ≡ true)
    → ((if not b then some c else rest) ≡ none) ↔ ((b && r) ≡ true)
kept_iff c true r h = h
kept_iff c false r h = (λ e. cc, λ e. cc)

first_invalid_iff : (s : Bytes) → (first_invalid s ≡ none) ↔ (all allowed s ≡ true)
unfolding first_invalid
first_invalid_iff [] = (λ _. refl, λ _. refl)
first_invalid_iff (c ∷ s) = kept_iff c (allowed c) (all allowed s) (first_invalid_iff s)

guard_iff :
    (b : Bool) (e : GError) → ((if b then err e else ok (tt {0})) ≡ ok (tt {0})) ↔ (b ≡ false)
guard_iff true e = (λ h. cc, λ h. cc)
guard_iff false e = (λ h. refl, λ h. refl)

check_reserved_iff :
    (s : Bytes) (o : Option ℕ) → (check_reserved s o ≡ ok tt) ↔ ((o ≡ none) × (reserved s ≡ false))
unfolding check_reserved
check_reserved_iff s (some c) = (λ h. cc, λ h. cc)
check_reserved_iff s none =
    (λ h. (refl, (guard_iff (reserved s) _).0 h), λ h. (guard_iff (reserved s) _).1 h.1)

-- A name passes exactly when it is given, shorter than 240 characters, begins with a letter, has only
-- letters, digits and `_-.:`, and is neither `log` nor begins with the name of a kind of vdev, in
-- upper or lower case. A name that is NULL never passes.
pub validate_pool_name_iff :
    (s : Bytes)
    → ((validate_pool_name (some s) ≡ ok tt) ↔ IsPoolName s) × (validate_pool_name none ≢ ok tt)
unfolding validate_pool_name
validate_pool_name_iff [] = ((λ h. cc, λ h. cc), λ h. cc)
validate_pool_name_iff (c ∷ s) = (
  (
    λ h.
        grind
          (arith, check_reserved_iff (c ∷ s) (first_invalid (c ∷ s)), first_invalid_iff (c ∷ s)),
    λ h.
        grind
          (arith, check_reserved_iff (c ∷ s) (first_invalid (c ∷ s)), first_invalid_iff (c ∷ s)),
  ),
  λ h. cc,
)

not-false : (b : Bool) → not b ≡ false → b ≡ true
not-false true h = refl
not-false false h = cc

-- The name of a pool is never taken for an option.
pub validate_pool_name-NotOption : (s : Bytes) → validate_pool_name (some s) ≡ ok tt → NotOption s
validate_pool_name-NotOption [] h = absurd (bad ((validate_pool_name_iff []).0.0 h))
  where
    bad : IsPoolName [] → ⊥
    bad p = cc
validate_pool_name-NotOption (c ∷ s) h =
    let good : IsPoolName (c ∷ s) = (validate_pool_name_iff (c ∷ s)).0.0 h in
    let letter : is_alpha c ≡ true = good.1 in (λ e. cc, ground arith)

pub validate_name_not_option-NotOption :
    (s param : Bytes) → validate_name_not_option (some s) param ≡ ok tt → NotOption s
unfolding validate_name_not_option
validate_name_not_option-NotOption [] param h = cc
validate_name_not_option-NotOption (c ∷ s) param h = (λ e. cc, ground arith)
