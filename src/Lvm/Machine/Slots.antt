-- ===== src/Lvm/Machine/Slots.antt =====
-- src/plugins/lvm/lvm.c: the slots of an array of arguments, and those of the parts of a plan.
use libblockdev.Base.{
  ℕ, ◌*◌, ◌<◌, ◌≤◌, Option, none, some, List, [], ◌∷◌, ◌++◌, Bytes, All, length, length-append,
  All-append, ◌≡◌, arith, Result, ok, err,
}
use libblockdev.Utils.Args.{ExtraArg}
use libblockdev.Utils.Commands.{Argv}
use libblockdev.Lvm.Config.{Globals, config_arg}
use libblockdev.Lvm.Ops.{Call, lvm_call, optional, devices_arg}
use libblockdev.Lvm.Ops.Volumes.{manage_lvm_tags_args, tag_words, listed}
use libblockdev.Lvm.Ops.Logical.{lvcreate_args, lvrename_args, type_words}
use libblockdev.Lvm.Machine.Plans.{planned, rename_plan}

-- The arguments and the closing NULL have slots, in the array of the operation and in that of the
-- program.
abbrev pub Fits : Call → Type 0
Fits c = (length c.inner.args < c.inner.allocated) × (length c.argv.args < c.argv.allocated)

pub optional_short : {A : Type 0} (o : Option A) → length (optional o) ≤ 1
optional_short none = omega arith
optional_short (some a) = omega arith

pub lvm_call-Fits :
    (inner : Argv) (extra : Option (List ExtraArg)) (g : Globals)
    → length inner.args < inner.allocated
    → Fits (lvm_call inner extra g)
unfolding lvm_call
lvm_call-Fits inner extra g h = (
  h,
  omega (
    arith,
    length-append inner.args (optional (config_arg g) ++ optional (devices_arg g)),
    length-append (optional (config_arg g)) (optional (devices_arg g)),
    optional_short (config_arg g),
    optional_short (devices_arg g),
  ),
)

pub length-tag_words :
    (action : Bytes) (tags : List Bytes) → length (tag_words action tags) ≡ 2 * length tags
length-tag_words action [] = omega arith
length-tag_words action (tag ∷ tags) = omega (arith, length-tag_words action tags)

pub tags_fit :
    (devspec : Bytes) (tags : List Bytes) (action cmd : Bytes)
    → length (manage_lvm_tags_args devspec tags action cmd).args
      < (manage_lvm_tags_args devspec tags action cmd).allocated
unfolding manage_lvm_tags_args
tags_fit devspec tags action cmd =
    omega
      (arith, length-append (tag_words action tags) (devspec ∷ []), length-tag_words action tags)

pub type_words_short : (type : Option Bytes) (n : ℕ) → length (type_words type n) ≤ 2
unfolding type_words
type_words_short none n = omega arith
type_words_short (some type) n = ground arith

pub lvcreate_fits :
    (vg_name lv_name : Bytes) (size : ℕ) (type : Option Bytes) (pv_list : Option (List Bytes))
    → length (lvcreate_args vg_name lv_name size type pv_list).args
      < (lvcreate_args vg_name lv_name size type pv_list).allocated
unfolding lvcreate_args
lvcreate_fits vg_name lv_name size type pv_list = omega (
  arith,
  length-append (type_words type (length (listed pv_list))) (vg_name ∷ listed pv_list),
  type_words_short type (length (listed pv_list)),
)

pub planned-Fits :
    {A : Type 0} (r : Result A) (rest : A → List Call)
    → ((a : A) → All Fits (rest a))
    → All Fits (planned r rest)
planned-Fits (ok a) rest h = h a
planned-Fits (err e) rest h = tt

pub planned_then :
    {A : Type 0} (r : Result A) (rest : A → List Call) (more : List Call)
    → ((a : A) → All Fits (rest a))
    → All Fits more
    → All Fits (planned r rest ++ more)
planned_then (ok a) rest more h k = All-append Fits (rest a) more (h a) k
planned_then (err e) rest more h k = k

pub rename-Fits :
    (vg_name data_lv : Bytes) (name : Option Bytes) (g : Globals)
    → All Fits (rename_plan vg_name data_lv name g)
unfolding lvrename_args
rename-Fits vg_name data_lv none g = tt
rename-Fits vg_name data_lv (some name) g = (lvm_call-Fits _ _ g (omega arith), tt)
