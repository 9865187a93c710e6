-- ===== src/Lvm/Ops/Columns.antt =====
-- src/plugins/lvm/lvm.c: the operations that read one column about a logical volume.
use libblockdev.Base.{
  ℕ, Option, none, some, [], ◌∷◌, ◌++◌, Bytes, if◌then◌else◌, ◌==◌, codes, strstrip, Result, ok,
  fail, lvm_cache_inval,
}
use libblockdev.Utils.Commands.{Argv}
use libblockdev.Lvm.Ops.{Env, M, ◌>>=◌, pure, checked, slots_for, spec, call_lvm_and_capture_output}

-- One column of one LV.
abbrev pub column_args : Bytes → Bytes → Bytes → Argv
column_args column vg_name lv_name =
    slots_for 6
      (codes "lvs" ∷ codes "--noheadings" ∷ codes "-o" ∷ column ∷ spec vg_name lv_name ∷ [])

unfoldable pub lvorigin : Env → Bytes → Bytes → M Bytes
unfolding call_lvm_and_capture_output
lvorigin env vg_name lv_name = do
  output ← call_lvm_and_capture_output env (column_args (codes "origin") vg_name lv_name) none
  pure (strstrip output)

unfoldable pub thlvpoolname : Env → Bytes → Bytes → M Bytes
unfolding call_lvm_and_capture_output
thlvpoolname env vg_name lv_name = do
  output ← call_lvm_and_capture_output env (column_args (codes "pool_lv") vg_name lv_name) none
  pure (strstrip output)

unfoldable pub vdolvpoolname : Env → Bytes → Bytes → M Bytes
unfolding call_lvm_and_capture_output
vdolvpoolname env vg_name lv_name = do
  output ← call_lvm_and_capture_output env (column_args (codes "pool_lv") vg_name lv_name) none
  pure (strstrip output)

-- `strchr (s, c)`: what is before and behind the first place.
unfoldable pub split_first : ℕ → Bytes → Option (Bytes × Bytes)
split_first c [] = none
split_first c (d ∷ s) =
    let rest : Option (Bytes × Bytes) = elim (split_first c s) [
      | none ↦ none
      | some (front, behind) ↦ some (d ∷ front, behind)
    ] in
    if d == c then some ([], s) else rest

abbrev pub up_to : ℕ → Bytes → Option Bytes
up_to c s = elim (split_first c s) [ none ↦ none | some (front, behind) ↦ some front ]

-- The name between the brackets; the inner `none` is a closing bracket in front of the opening one,
-- where the length of the copy is negative.
unfoldable pub bracketed : Bytes → Result (Option Bytes)
unfolding split_first
bracketed ret = elim (split_first b'[' ret) [
  | none ↦
      fail lvm_cache_inval
        (codes "Failed to determine cache pool name from: '" ++ (ret ++ codes "'"))
  | some (front, behind) ↦ elim (split_first b']' ret) [
    | none ↦
        fail lvm_cache_inval
          (codes "Failed to determine cache pool name from: '" ++ (ret ++ codes "'"))
    | some (before_end, _) ↦ elim (split_first b']' front) [
      | some _ ↦ ok none
      | none ↦ ok (up_to b']' behind)
    ]
  ]
]

unfoldable pub cache_pool_name : Env → Bytes → Bytes → M (Option Bytes)
unfolding thlvpoolname bracketed
cache_pool_name env vg_name cached_lv = do
  ret ← thlvpoolname env vg_name cached_lv
  checked (bracketed ret)
