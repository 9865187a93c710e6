-- ===== src/Zfs/Pool/Guards.antt =====
-- The guards and the loops over the arguments of the operations on pools: what passes a guard, and what
-- a loop counts and writes.
use libblockdev.Base.{
  ℕ, ◌+◌, ◌*◌, Option, none, some, List, [], ◌∷◌, ◌++◌, Bytes, length, Result, ok, err, codes, ◌>>◌,
  ◌≡◌, refl, sym, ap, subst, ◌∙◌, arith, All, append-nil, append_assoc, length-append,
}
use libblockdev.Utils.Args.{ExtraArg, slots, written, flat_args, length-written}
use libblockdev.Zfs.Names.{
  validate_name_not_option, validate_pool_name, NotOption, validate_pool_name-NotOption,
  validate_name_not_option-NotOption,
}
use libblockdev.Zfs.Pool.{
  optional, count_extra_args, append_extra_args, count_extra_args_from, append_extra_args_loop,
  check_pool_name, check_vdevs, check_raid_level, validate_vdevs, check_name, check_new_name,
  search_args,
}

pub loop-append :
    (argv : List Bytes) (xs : List ExtraArg) → append_extra_args_loop argv xs ≡ argv ++ flat_args xs
unfolding append_extra_args_loop
loop-append argv [] = sym (append-nil argv)
loop-append argv (x ∷ xs) =
    loop-append ((argv ++ written x.opt) ++ written x.val) xs
    ∙ (append_assoc (argv ++ written x.opt) (written x.val) (flat_args xs)
        ∙ append_assoc argv (written x.opt) (written x.val ++ flat_args xs))

pub count-length :
    (n : ℕ) (xs : List ExtraArg) → count_extra_args_from n xs ≡ n + length (flat_args xs)
unfolding count_extra_args_from
count-length n [] = omega arith
count-length n (x ∷ xs) = omega (
  arith,
  count-length (n + slots x.opt + slots x.val) xs,
  length-append (written x.opt) (written x.val ++ flat_args xs),
  length-append (written x.val) (flat_args xs),
  length-written x.opt,
  length-written x.val,
)

abbrev pub extra_of : Option (List ExtraArg) → List Bytes
extra_of none = []
extra_of (some xs) = flat_args xs

pub append_extra_args_lem :
    (argv : List Bytes) (extra : Option (List ExtraArg))
    → append_extra_args argv extra ≡ argv ++ extra_of extra
unfolding append_extra_args
append_extra_args_lem argv none = sym (append-nil argv)
append_extra_args_lem argv (some xs) = loop-append argv xs

pub count_extra_args_lem :
    (extra : Option (List ExtraArg)) → count_extra_args extra ≡ length (extra_of extra)
unfolding count_extra_args
count_extra_args_lem none = refl
count_extra_args_lem (some xs) = omega (arith, count-length 0 xs)

pub then-ok :
    {B : Type 0} (m : Result (Unit {0})) (k : Result B) {b : B}
    → (m >> k) ≡ ok b
    → (m ≡ ok tt) × (k ≡ ok b)
then-ok (ok tt) k h = (refl, h)
then-ok (err e) k h = cc

pub validate_vdevs-All : (vs : List Bytes) → validate_vdevs vs ≡ ok tt → All NotOption vs
unfolding validate_vdevs
validate_vdevs-All [] h = tt
validate_vdevs-All (v ∷ vs) h =
    let both = then-ok (validate_name_not_option (some v) (codes "Vdev")) (validate_vdevs vs) h in
    (validate_name_not_option-NotOption v (codes "Vdev") both.0, validate_vdevs-All vs both.1)

pub ok-injective : {B : Type 0} {a b : B} → ok a ≡ ok b → a ≡ b
ok-injective e = cc

pub check_vdevs-ok :
    (vdevs : Option (List Bytes)) (vs : List Bytes)
    → check_vdevs vdevs ≡ ok vs
    → (vdevs ≡ some vs) × All NotOption vs
unfolding check_vdevs
check_vdevs-ok none vs h = cc
check_vdevs-ok (some []) vs h = cc
check_vdevs-ok (some (w ∷ ws)) vs h =
    let both = then-ok (validate_vdevs (w ∷ ws)) (ok (w ∷ ws)) h in
    (
      ap some (ok-injective both.1),
      subst (All NotOption) (ok-injective both.1) (validate_vdevs-All (w ∷ ws) both.0),
    )

pub check_raid_level-All :
    (level : Option Bytes) → check_raid_level level ≡ ok tt → All NotOption (optional level)
unfolding check_raid_level
check_raid_level-All none h = tt
check_raid_level-All (some l) h = (validate_name_not_option-NotOption l (codes "RAID level") h, tt)

pub check_new_name-All :
    (name : Option Bytes) → check_new_name name ≡ ok tt → All NotOption (optional name)
unfolding check_new_name
check_new_name-All none h = tt
check_new_name-All (some l) h = (validate_pool_name-NotOption l h, tt)

pub check_pool_name-ok :
    (name : Option Bytes) (n : Bytes) → check_pool_name name ≡ ok n → (name ≡ some n) × NotOption n
unfolding check_pool_name validate_pool_name
check_pool_name-ok none n h = cc
check_pool_name-ok (some m) n h =
    let both = then-ok (validate_pool_name (some m)) (ok m) h in
    (
      ap some (ok-injective both.1),
      subst NotOption (ok-injective both.1) (validate_pool_name-NotOption m both.0),
    )

pub check_name-ok :
    (name : Option Bytes) (param n : Bytes)
    → check_name name param ≡ ok n
    → (name ≡ some n) × NotOption n
unfolding check_name validate_name_not_option
check_name-ok none param n h = cc
check_name-ok (some m) param n h =
    let both = then-ok (validate_name_not_option (some m) param) (ok m) h in
    (
      ap some (ok-injective both.1),
      subst NotOption (ok-injective both.1) (validate_name_not_option-NotOption m param both.0),
    )

pub length-search_args : (ds : List Bytes) → length (search_args ds) ≡ length ds * 2
unfolding search_args
length-search_args [] = refl
length-search_args (d ∷ ds) = omega (arith, length-search_args ds)
