-- ===== src/Zfs/Pool/Operands.antt =====
-- The arrays that are passed to `zpool`: what stands behind `--`, and what was allocated.
use libblockdev.Base.{
  ◌+◌, ◌*◌, Option, some, List, [], ◌∷◌, ◌++◌, Bool, true, false, Bytes, if◌then◌else◌, length,
  Result, ok, err, codes, ◌>>=◌, ◌≡◌, refl, ap, subst, arith, All, All-append, length-append,
}
use libblockdev.Utils.Args.{ExtraArg}
use libblockdev.Zfs.Names.{NotOption}
use libblockdev.Zfs.Pool.{
  Argv, optional, count_extra_args, append_extra_args, check_pool_name, check_vdevs,
  check_raid_level, check_name, check_new_name, search_args, dirs_of, pool_create_argv,
  pool_import_argv,
}
use libblockdev.Zfs.Pool.Guards.{
  append_extra_args_lem, count_extra_args_lem, ok-injective, check_vdevs-ok, check_raid_level-All,
  check_new_name-All, check_pool_name-ok, check_name-ok, length-search_args, extra_of,
}

-- Four steps in a row, of which the second and the fourth are tests.
steps-ok :
    {A C B : Type 0} (m : Result A) (u : Result (Unit {0})) (v : Result C) (d : Result (Unit {0}))
    (k : A → C → B) {b : B}
    → (m >>= λ a. u >>= λ _. v >>= λ c. d >>= λ _. ok (k a c)) ≡ ok b
    → (a : A) × (c : C) × (m ≡ ok a) × (u ≡ ok tt) × (v ≡ ok c) × (k a c ≡ b)
steps-ok (err e) u v d k h = cc
steps-ok (ok a) (err e) v d k h = cc
steps-ok (ok a) (ok x) (err e) d k h = cc
steps-ok (ok a) (ok x) (ok c) (err e) k h = cc
steps-ok (ok a) (ok x) (ok c) (ok y) k h = (a, c, refl, refl, refl, ok-injective h)

create_array : Option Bytes → Option (List ExtraArg) → Bytes → List Bytes → Argv
create_array level extra n vs = record {
  allocated = 4 + count_extra_args extra + length vs + length (optional level) + 1;
  args =
      append_extra_args (codes "zpool" ∷ codes "create" ∷ []) extra
      ++ (codes "--" ∷ n ∷ (optional level ++ vs));
}

create_args :
    (level : Option Bytes) (extra : Option (List ExtraArg)) (n : Bytes) (vs : List Bytes)
    → (create_array level extra n vs).args
      ≡ (codes "zpool" ∷ codes "create" ∷ extra_of extra)
        ++ (codes "--" ∷ n ∷ (optional level ++ vs))
unfolding create_array
create_args level extra n vs =
    ap (λ t. t ++ (codes "--" ∷ n ∷ (optional level ++ vs)))
      (append_extra_args_lem (codes "zpool" ∷ codes "create" ∷ []) extra)

create_length :
    (level : Option Bytes) (extra : Option (List ExtraArg)) (n : Bytes) (vs : List Bytes)
    → length (create_array level extra n vs).args + 1 ≡ (create_array level extra n vs).allocated
unfolding create_array
create_length level extra n vs =
    rw (append_extra_args_lem (codes "zpool" ∷ codes "create" ∷ []) extra) (
      omega (
        arith,
        count_extra_args_lem extra,
        length-append (extra_of extra) (codes "--" ∷ n ∷ (optional level ++ vs)),
        length-append (optional level) vs,
      ))

import_front : Option (List Bytes) → Bool → List Bytes
import_front dirs force =
    codes "zpool"
    ∷ codes "import"
    ∷ ((if force then codes "-f" ∷ [] else []) ++ search_args (dirs_of dirs))

import_array : Option Bytes → Option (List Bytes) → Bool → Option (List ExtraArg) → Bytes → Argv
unfolding import_front
import_array new_name dirs force extra n = record {
  allocated =
      4
      + (if force then 1 else 0)
      + length (dirs_of dirs) * 2
      + count_extra_args extra
      + length (optional new_name)
      + 1;
  args = append_extra_args (import_front dirs force) extra ++ (codes "--" ∷ n ∷ optional new_name);
}

length-force : (b : Bool) → length (if b then codes "-f" ∷ [] else []) ≡ (if b then 1 else 0)
length-force true = refl
length-force false = refl

import_length :
    (new_name : Option Bytes) (dirs : Option (List Bytes)) (force : Bool)
    (extra : Option (List ExtraArg)) (n : Bytes)
    → length (import_array new_name dirs force extra n).args + 1
      ≡ (import_array new_name dirs force extra n).allocated
unfolding import_array import_front
import_length new_name dirs force extra n =
    rw (append_extra_args_lem (import_front dirs force) extra) (
      omega (
        arith,
        count_extra_args_lem extra,
        length-force force,
        length-search_args (dirs_of dirs),
        length-append (import_front dirs force ++ extra_of extra)
            (codes "--" ∷ n ∷ optional new_name),
        length-append (import_front dirs force) (extra_of extra),
        length-append (if force then codes "-f" ∷ [] else []) (search_args (dirs_of dirs)),
      ))

-- Where `pool_create` gets as far as running `zpool`, the array is `zpool create`, the extra arguments,
-- `--`, the name, the RAID level if there is one, and the vdevs, which were given and are at least one;
-- nothing behind `--` is empty or begins with a dash, and with the closing NULL the array has just the
-- slots that were allocated.
pub pool_create_argv-ok :
    (deps : Result (Unit {0})) (name : Option Bytes) (vdevs : Option (List Bytes))
    (level : Option Bytes) (extra : Option (List ExtraArg)) {a : Argv}
    → pool_create_argv deps name vdevs level extra ≡ ok a
    → (n : Bytes) × (vs : List Bytes) × (name ≡ some n)
      × (vdevs ≡ some vs)
      × (a.args
          ≡ (codes "zpool" ∷ codes "create" ∷ extra_of extra)
            ++ (codes "--" ∷ n ∷ (optional level ++ vs)))
      × All NotOption (n ∷ (optional level ++ vs))
      × (length a.args + 1 ≡ a.allocated)
unfolding pool_create_argv create_array
pool_create_argv-ok deps name vdevs level extra {a} h =
    let (n, vs, hn, hl, hv, e) =
      steps-ok (check_pool_name name) (check_raid_level level) (check_vdevs vdevs) deps
        (create_array level extra) h in
    let name_ok = check_pool_name-ok name n hn in
    let vdevs_ok = check_vdevs-ok vdevs vs hv in
    subst
      (λ x.
        (n : Bytes) × (vs : List Bytes) × (name ≡ some n)
        × (vdevs ≡ some vs)
        × (x.args
            ≡ (codes "zpool" ∷ codes "create" ∷ extra_of extra)
              ++ (codes "--" ∷ n ∷ (optional level ++ vs)))
        × All NotOption (n ∷ (optional level ++ vs))
        × (length x.args + 1 ≡ x.allocated))
      e
      (
        n,
        vs,
        name_ok.0,
        vdevs_ok.0,
        create_args level extra n vs,
        (
          name_ok.1,
          All-append NotOption (optional level) vs (check_raid_level-All level hl) vdevs_ok.1,
        ),
        create_length level extra n vs,
      )

-- Where `pool_import` gets as far as running `zpool`, the array is `zpool import`, `-f` if it is forced,
-- `-d` and the directory for each directory to search, the extra arguments, `--`, the name and the new
-- name if there is one; nothing behind `--` is empty or begins with a dash, and with the closing NULL
-- the array has just the slots that were allocated.
pub pool_import_argv-ok :
    (deps : Result (Unit {0})) (name new_name : Option Bytes) (dirs : Option (List Bytes))
    (force : Bool) (extra : Option (List ExtraArg)) {a : Argv}
    → pool_import_argv deps name new_name dirs force extra ≡ ok a
    → (n : Bytes) × (name ≡ some n)
      × (a.args
          ≡ (codes "zpool"
                ∷ codes "import"
                ∷ ((if force then codes "-f" ∷ [] else []) ++ search_args (dirs_of dirs))
              ++ extra_of extra)
            ++ (codes "--" ∷ n ∷ optional new_name))
      × All NotOption (n ∷ optional new_name)
      × (length a.args + 1 ≡ a.allocated)
unfolding pool_import_argv import_array import_front
pool_import_argv-ok deps name new_name dirs force extra {a} h =
    let (n, _, hn, hl, _, e) =
      steps-ok (check_name name (codes "Pool name or GUID")) (check_new_name new_name) (ok tt) deps
        (λ n _. import_array new_name dirs force extra n) h in
    let name_ok = check_name-ok name (codes "Pool name or GUID") n hn in
    subst
      (λ x.
        (n : Bytes) × (name ≡ some n)
        × (x.args
            ≡ (codes "zpool"
                  ∷ codes "import"
                  ∷ ((if force then codes "-f" ∷ [] else []) ++ search_args (dirs_of dirs))
                ++ extra_of extra)
              ++ (codes "--" ∷ n ∷ optional new_name))
        × All NotOption (n ∷ optional new_name)
        × (length x.args + 1 ≡ x.allocated))
      e
      (
        n,
        name_ok.0,
        ap (λ t. t ++ (codes "--" ∷ n ∷ optional new_name))
            (append_extra_args_lem (import_front dirs force) extra),
        (name_ok.1, check_new_name-All new_name hl),
        import_length new_name dirs force extra n,
      )
