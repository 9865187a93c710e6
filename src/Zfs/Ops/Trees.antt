-- ===== src/Zfs/Ops/Trees.antt =====
-- src/plugins/zfs.c: the pools that can be imported, the vdevs of a pool and the status of its scrub.
use libblockdev.Base.{
  Option, none, some, List, [], ◌∷◌, Bool, false, ◌||◌, Bytes, has_prefix, if◌then◌else◌, GError,
  codes,
}
use libblockdev.Zfs.Pool.{check_name}
use libblockdev.Zfs.Reports.{PoolInfo}
use libblockdev.Zfs.Importable.{parse_importable}
use libblockdev.Zfs.VdevTree.{Tree, parse_vdevs}
use libblockdev.Zfs.Scrub.{ScrubInfo, parse_scrub}
use libblockdev.Zfs.Ops.{
  Env, World, M, ◌>>=◌, ◌>>◌, pure, checked, need_tools, capture, slots_for, both_masks,
}

-- `g_strrstr (haystack, needle) != NULL`
unfoldable pub contains : Bytes → Bytes → Bool
contains [] needle = has_prefix [] needle
contains (c ∷ s) needle = has_prefix (c ∷ s) needle || contains s needle

-- The text with which `zpool import` fails where there is no pool.
abbrev pub is_no_pools : Option GError → Bool
is_no_pools none = false
is_no_pools (some e) = contains e.message (codes "no pools available to import")

-- That error is cleared, and the list is empty.
unfoldable pub forgive : World × Option Bytes → World × Option (Option Bytes)
unfolding contains
forgive (w, some output) = (w, some (some output))
forgive (w, none) =
    if is_no_pools w.plugin.error
    then (record w { plugin = record (w.plugin) { error = none } }, some none)
    else (w, none)

abbrev pub importable_of : Option Bytes → Option (List PoolInfo)
importable_of none = some []
importable_of (some output) = parse_importable output

-- The inner `none` is a use of freed memory.
unfoldable pub pool_list_importable : Env → M (Option (List PoolInfo))
unfolding forgive parse_importable
pool_list_importable env = do
  need_tools env both_masks
  output ← λ w. forgive (capture env (slots_for 3 (codes "zpool" ∷ codes "import" ∷ [])) w)
  pure (importable_of output)

unfoldable pub pool_get_vdevs : Env → Option Bytes → M Tree
unfolding check_name parse_vdevs
pool_get_vdevs env name = do
  n ← checked (check_name name (codes "Pool name"))
  need_tools env both_masks
  output ←
      capture env (slots_for 6 (codes "zpool" ∷ codes "status" ∷ codes "-P" ∷ codes "--" ∷ n ∷ []))
  checked (parse_vdevs env.stat n output)

unfoldable pub pool_scrub_status : (env : Env) → Option Bytes → M (ScrubInfo env.real)
unfolding check_name parse_scrub
pool_scrub_status env name = do
  n ← checked (check_name name (codes "Pool name"))
  need_tools env both_masks
  output ← capture env (slots_for 5 (codes "zpool" ∷ codes "status" ∷ codes "--" ∷ n ∷ []))
  checked (parse_scrub env.real n output)
