-- ===== src/Lvm/Ops/Caches.antt =====
-- src/plugins/lvm/lvm.c: the operations on caches, and those that convert volumes into pools.
use libblockdev.Base.{
  ℕ, ◌+◌, Option, none, some, List, [], ◌∷◌, ◌++◌, Bool, true, false, Bytes, if◌then◌else◌, ◌==◌,
  codes,
}
use libblockdev.Utils.Args.{ExtraArg}
use libblockdev.Utils.Commands.{Argv}
use libblockdev.Lvm.Calc.{cache_get_default_md_size}
use libblockdev.Lvm.Modes.{CacheMode, cache_get_mode_str}
use libblockdev.Lvm.Ops.{
  Env, M, ◌>>=◌, ◌>>◌, pure, checked, prefixed, slots_for, spec, call_lvm_and_report_error,
}
use libblockdev.Base.Bits.{bit}
use libblockdev.Lvm.Ops.Logical.{lvcreate, lvdeactivate, lvrename}

unfoldable pub cache_pool_args : Bytes → Bytes → Bytes → Argv
cache_pool_args vg_name pool_name mode_str = slots_for 10 (
    codes "lvconvert"
    ∷ codes "-y"
    ∷ codes "--type"
    ∷ codes "cache-pool"
    ∷ codes "--poolmetadata"
    ∷ (pool_name ++ codes "_meta")
    ∷ codes "--cachemode"
    ∷ mode_str
    ∷ spec vg_name pool_name
    ∷ [])

unfoldable pub cache_attach_args : Bytes → Bytes → Bytes → Argv
cache_attach_args vg_name data_lv cache_pool_lv = slots_for 8 (
    codes "lvconvert"
    ∷ codes "-y"
    ∷ codes "--type"
    ∷ codes "cache"
    ∷ codes "--cachepool"
    ∷ spec vg_name cache_pool_lv
    ∷ spec vg_name data_lv
    ∷ [])

unfoldable pub cache_attach : Env → Bytes → Bytes → Bytes → Option (List ExtraArg) → M (Unit {0})
unfolding cache_attach_args
cache_attach env vg_name data_lv cache_pool_lv extra =
    call_lvm_and_report_error env (cache_attach_args vg_name data_lv cache_pool_lv) extra

unfoldable pub cache_detach_args : Bytes → Bytes → Bool → Argv
cache_detach_args vg_name cached_lv destroy = slots_for 6 (
    codes "lvconvert"
    ∷ codes "-y"
    ∷ codes "-f"
    ∷ (if destroy then codes "--uncache" else codes "--splitcache")
    ∷ spec vg_name cached_lv
    ∷ [])

unfoldable pub cache_detach : Env → Bytes → Bytes → Bool → Option (List ExtraArg) → M (Unit {0})
unfolding cache_detach_args
cache_detach env vg_name cached_lv destroy extra =
    call_lvm_and_report_error env (cache_detach_args vg_name cached_lv destroy) extra

unfoldable pub writecache_args : Bytes → Bytes → Bytes → Argv
writecache_args vg_name data_lv cache_lv = slots_for 8 (
    codes "lvconvert"
    ∷ codes "-y"
    ∷ codes "--type"
    ∷ codes "writecache"
    ∷ codes "--cachevol"
    ∷ spec vg_name cache_lv
    ∷ spec vg_name data_lv
    ∷ [])

unfoldable pub thpool_convert_args : Bytes → Bytes → Bytes → Argv
thpool_convert_args vg_name data_lv metadata_lv = slots_for 8 (
    codes "lvconvert"
    ∷ codes "--yes"
    ∷ codes "--type"
    ∷ codes "thin-pool"
    ∷ codes "--poolmetadata"
    ∷ metadata_lv
    ∷ spec vg_name data_lv
    ∷ [])

unfoldable pub cache_pool_convert_args : Bytes → Bytes → Bytes → Argv
cache_pool_convert_args vg_name data_lv metadata_lv = slots_for 8 (
    codes "lvconvert"
    ∷ codes "--yes"
    ∷ codes "--type"
    ∷ codes "cache-pool"
    ∷ codes "--poolmetadata"
    ∷ metadata_lv
    ∷ spec vg_name data_lv
    ∷ [])

-- The bits of `BDLVMCachePoolFlags`: those of the data from 0 on, those of the metadata from 10 on.
unfoldable pub get_lv_type_from_flags : ℕ → Bool → Option Bytes
unfolding bit
get_lv_type_from_flags flags meta =
    let first : ℕ = if meta then 10 else 0 in
    if bit first flags
    then some (codes "striped")
    else if bit (first + 1) flags
    then some (codes "raid1")
    else if bit (first + 2) flags
    then some (codes "raid5")
    else if bit (first + 3) flags
    then some (codes "raid6")
    else if bit (first + 4) flags
    then some (codes "raid10")
    else none

abbrev pub md_size_of : ℕ → ℕ → ℕ
unfolding cache_get_default_md_size
md_size_of md_size pool_size = if md_size == 0 then cache_get_default_md_size pool_size else md_size

-- The data LV, the metadata LV, and the conversion of the two.
unfoldable pub cache_create_pool :
    Env → Bytes → Bytes → ℕ → ℕ → CacheMode → ℕ → Option (List Bytes) → M (Unit {0})
unfolding lvcreate get_lv_type_from_flags cache_pool_args cache_get_mode_str
    cache_get_default_md_size
cache_create_pool env vg_name pool_name pool_size md_size mode flags fast_pvs = do
  prefixed (codes "Failed to create the pool LV: ")
      (lvcreate env vg_name pool_name pool_size (get_lv_type_from_flags flags false) fast_pvs none)
  prefixed (codes "Failed to create the pool metadata LV: ") (
      lvcreate env vg_name (pool_name ++ codes "_meta") (md_size_of md_size pool_size)
        (get_lv_type_from_flags flags true) fast_pvs none)
  mode_str ← checked (cache_get_mode_str mode)
  call_lvm_and_report_error env (cache_pool_args vg_name pool_name mode_str) none

unfoldable pub cache_create_cached_lv :
    Env
    → Bytes
    → Bytes
    → ℕ
    → ℕ
    → ℕ
    → CacheMode
    → ℕ
    → Option (List Bytes)
    → Option (List Bytes)
    → M (Unit {0})
unfolding cache_create_pool lvcreate cache_attach
cache_create_cached_lv env vg_name lv_name data_size cache_size md_size mode flags slow_pvs
      fast_pvs =
    do
      prefixed
          (codes "Failed to create the cache pool '"
            ++ ((lv_name ++ codes "_cache") ++ codes "': "))
          (cache_create_pool env vg_name (lv_name ++ codes "_cache") cache_size md_size mode flags
            fast_pvs)
      prefixed (codes "Failed to create the data LV: ")
          (lvcreate env vg_name lv_name data_size none slow_pvs none)
      prefixed
          (codes "Failed to attach the cache pool '"
            ++ ((lv_name ++ codes "_cache") ++ codes "' to the data LV: "))
          (cache_attach env vg_name lv_name (lv_name ++ codes "_cache") none)

-- Both volumes are made inactive first.
unfoldable pub writecache_attach :
    Env → Bytes → Bytes → Bytes → Option (List ExtraArg) → M (Unit {0})
unfolding lvdeactivate writecache_args
writecache_attach env vg_name data_lv cache_lv extra = do
  lvdeactivate env vg_name data_lv none
  lvdeactivate env vg_name cache_lv none
  call_lvm_and_report_error env (writecache_args vg_name data_lv cache_lv) extra

unfoldable pub writecache_detach :
    Env → Bytes → Bytes → Bool → Option (List ExtraArg) → M (Unit {0})
unfolding cache_detach
writecache_detach env vg_name cached_lv destroy extra =
    cache_detach env vg_name cached_lv destroy extra

unfoldable pub writecache_create_cached_lv :
    Env → Bytes → Bytes → ℕ → ℕ → Option (List Bytes) → Option (List Bytes) → M (Unit {0})
unfolding lvcreate writecache_attach
writecache_create_cached_lv env vg_name lv_name data_size cache_size slow_pvs fast_pvs = do
  prefixed
      (codes "Failed to create the cache LV '" ++ ((lv_name ++ codes "_writecache") ++ codes "': "))
      (lvcreate env vg_name (lv_name ++ codes "_writecache") cache_size none fast_pvs none)
  prefixed (codes "Failed to create the data LV: ")
      (lvcreate env vg_name lv_name data_size none slow_pvs none)
  prefixed
      (codes "Failed to attach the cache LV '"
        ++ ((lv_name ++ codes "_writecache") ++ codes "' to the data LV: "))
      (writecache_attach env vg_name lv_name (lv_name ++ codes "_writecache") none)

-- `if (success && name) success = bd_lvm_lvrename (vg_name, data_lv, name, NULL, error);`
unfoldable pub renamed : Env → Bytes → Bytes → Option Bytes → M (Unit {0})
unfolding lvrename
renamed env vg_name data_lv none = pure tt
renamed env vg_name data_lv (some name) = lvrename env vg_name data_lv name none

unfoldable pub thpool_convert :
    Env → Bytes → Bytes → Bytes → Option Bytes → Option (List ExtraArg) → M (Unit {0})
unfolding thpool_convert_args renamed
thpool_convert env vg_name data_lv metadata_lv name extra = do
  call_lvm_and_report_error env (thpool_convert_args vg_name data_lv metadata_lv) extra
  renamed env vg_name data_lv name

unfoldable pub cache_pool_convert :
    Env → Bytes → Bytes → Bytes → Option Bytes → Option (List ExtraArg) → M (Unit {0})
unfolding cache_pool_convert_args renamed
cache_pool_convert env vg_name data_lv metadata_lv name extra = do
  call_lvm_and_report_error env (cache_pool_convert_args vg_name data_lv metadata_lv) extra
  renamed env vg_name data_lv name
