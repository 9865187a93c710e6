-- ===== src/Mdraid/Create.antt =====
-- The array that creates a RAID.
use libblockdev.Base.{
  ℕ, ◌+◌, Option, none, some, List, ◌++◌, Bool, true, false, not, ◌==◌, ◌≡◌, refl, arith, Bytes,
  length, length-append, decimal, codes, ◌/◌,
}
use libblockdev.Mdraid.{create_argv, one_if, arg_if, is_some, option_arg}

length-arg_if : (b : Bool) (a : Bytes) → length (arg_if b a) ≡ one_if b
length-arg_if true a = refl
length-arg_if false a = refl

length-option_arg :
    (name : Bytes) (o : Option Bytes) → length (option_arg name o) ≡ one_if (is_some o)
length-option_arg name none = refl
length-option_arg name (some v) = refl

-- Whatever is asked for, what is written into the array of `bd_md_create`, with its closing NULL, fills
-- just the slots that were allocated.
pub create_argv_fits :
    (device_name level : Bytes) (disks : List Bytes) (spares : ℕ) (version bitmap : Option Bytes)
    (chunk_size : ℕ)
    → length (create_argv device_name level disks spares version bitmap chunk_size).args + 1
      ≡ (create_argv device_name level disks spares version bitmap chunk_size).allocated
unfolding create_argv
create_argv_fits device_name level disks spares version bitmap chunk_size =
    let chunk = arg_if (not (chunk_size == 0)) (codes "--chunk=" ++ decimal (chunk_size / 1024)) in
    let last = chunk ++ disks in
    let bits = option_arg (codes "--bitmap=") bitmap in
    let meta = option_arg (codes "--metadata=") version in
    let spare = arg_if (not (spares == 0)) (codes "--spare-devices=" ++ decimal spares) in
    omega (
      arith,
      length-append spare (meta ++ (bits ++ last)),
      length-append meta (bits ++ last),
      length-append bits last,
      length-append chunk disks,
      length-arg_if (not (spares == 0)) (codes "--spare-devices=" ++ decimal spares),
      length-arg_if (not (chunk_size == 0)) (codes "--chunk=" ++ decimal (chunk_size / 1024)),
      length-option_arg (codes "--metadata=") version,
      length-option_arg (codes "--bitmap=") bitmap,
    )
