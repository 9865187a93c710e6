-- ===== src/Lvm/Safety/Completes/Composed.antt =====
-- src/plugins/lvm/lvm.c: the operations of several runs, where each run ends well.
use libblockdev.Base.{◌≡◌, Option, none, some, List, ℕ, Bytes, Bool, ok}
use libblockdev.Lvm.Ops.{Env}
use libblockdev.Lvm.Ops.Logical.{lvcreate, lvrename, lvdeactivate}
use libblockdev.Lvm.Ops.Vdo.{vdo_pool_create, vdo_pool_convert}
use libblockdev.Lvm.Ops.Caches.{
  cache_attach, cache_create_pool, cache_create_cached_lv, writecache_attach,
  writecache_create_cached_lv, thpool_convert, cache_pool_convert,
}
use libblockdev.Lvm.Modes.{CacheMode, cache_get_mode_str, WritePolicy, get_vdo_write_policy_str}
use libblockdev.Lvm.Ops.{◌>>=◌, checked, call_lvm_and_report_error}
use libblockdev.Lvm.Ops.Caches.{renamed}
use libblockdev.Lvm.Ops.Vdo.{vdo_config, with_config}
use libblockdev.Utils.Args.{ExtraArg}
use libblockdev.Utils.Commands.{Argv}
use libblockdev.Lvm.Safety.Completes.{
  EndsWell, Completes, >>=-Completes, >>-Completes, pure-Completes, checked-Completes,
  prefixed-Completes, with_config-Completes, report_error-Completes,
}

module _ (env : Env) (well : EndsWell env) where
  pub cache_create_pool-Completes :
      (vg_name pool_name : Bytes) (pool_size md_size : ℕ) (mode : CacheMode) (flags : ℕ)
      (fast_pvs : Option (List Bytes)) (name : Bytes)
      → cache_get_mode_str mode ≡ ok name
      → Completes (cache_create_pool env vg_name pool_name pool_size md_size mode flags fast_pvs)
  unfolding cache_create_pool lvcreate
  cache_create_pool-Completes vg_name pool_name pool_size md_size mode flags fast_pvs name named =
      >>-Completes (prefixed-Completes _ (report_error-Completes env well _ none)) (
        >>-Completes (prefixed-Completes _ (report_error-Completes env well _ none)) (
          >>=-Completes (checked-Completes (cache_get_mode_str mode) named)
            (λ mode_str. report_error-Completes env well _ none)))

  pub cache_create_cached_lv-Completes :
      (vg_name lv_name : Bytes) (data_size cache_size md_size : ℕ) (mode : CacheMode) (flags : ℕ)
      (slow_pvs fast_pvs : Option (List Bytes)) (name : Bytes)
      → cache_get_mode_str mode ≡ ok name
      → Completes (
          cache_create_cached_lv env vg_name lv_name data_size cache_size md_size mode flags
            slow_pvs fast_pvs)
  unfolding cache_create_cached_lv lvcreate cache_attach
  cache_create_cached_lv-Completes vg_name lv_name data_size cache_size md_size mode flags slow_pvs
        fast_pvs name named =
      >>-Completes
        (prefixed-Completes _
          (cache_create_pool-Completes _ _ cache_size md_size mode flags fast_pvs name named))
        (>>-Completes (prefixed-Completes _ (report_error-Completes env well _ none))
          (prefixed-Completes _ (report_error-Completes env well _ none)))

  pub writecache_attach-Completes :
      (vg_name data_lv cache_lv : Bytes) (extra : Option (List ExtraArg))
      → Completes (writecache_attach env vg_name data_lv cache_lv extra)
  unfolding writecache_attach lvdeactivate
  writecache_attach-Completes vg_name data_lv cache_lv extra =
      >>-Completes (report_error-Completes env well _ none) (
        >>-Completes (report_error-Completes env well _ none)
          (report_error-Completes env well _ extra))

  pub writecache_create_cached_lv-Completes :
      (vg_name lv_name : Bytes) (data_size cache_size : ℕ) (slow_pvs fast_pvs : Option (List Bytes))
      → Completes
          (writecache_create_cached_lv env vg_name lv_name data_size cache_size slow_pvs fast_pvs)
  unfolding writecache_create_cached_lv lvcreate
  writecache_create_cached_lv-Completes vg_name lv_name data_size cache_size slow_pvs fast_pvs =
      >>-Completes (prefixed-Completes _ (report_error-Completes env well _ none)) (
        >>-Completes (prefixed-Completes _ (report_error-Completes env well _ none))
          (prefixed-Completes _ (writecache_attach-Completes _ _ _ _)))

  renamed-Completes :
      (vg_name data_lv : Bytes) (name : Option Bytes) → Completes (renamed env vg_name data_lv name)
  unfolding renamed lvrename
  renamed-Completes vg_name data_lv none = pure-Completes tt
  renamed-Completes vg_name data_lv (some name) = report_error-Completes env well _ none

  pub thpool_convert-Completes :
      (vg_name data_lv metadata_lv : Bytes) (name : Option Bytes) (extra : Option (List ExtraArg))
      → Completes (thpool_convert env vg_name data_lv metadata_lv name extra)
  unfolding thpool_convert
  thpool_convert-Completes vg_name data_lv metadata_lv name extra =
      >>-Completes (report_error-Completes env well _ extra)
        (renamed-Completes vg_name data_lv name)

  pub cache_pool_convert-Completes :
      (vg_name data_lv metadata_lv : Bytes) (name : Option Bytes) (extra : Option (List ExtraArg))
      → Completes (cache_pool_convert env vg_name data_lv metadata_lv name extra)
  unfolding cache_pool_convert
  cache_pool_convert-Completes vg_name data_lv metadata_lv name extra =
      >>-Completes (report_error-Completes env well _ extra)
        (renamed-Completes vg_name data_lv name)

  -- A run under the configuration of a VDO pool.
  vdo-Completes :
      (args : Argv) (index_memory : ℕ) (policy : WritePolicy) (extra : Option (List ExtraArg))
      (name : Bytes)
      → get_vdo_write_policy_str policy ≡ ok name
      → Completes (
          checked (get_vdo_write_policy_str policy) >>= λ p.
          with_config (vdo_config index_memory p) (call_lvm_and_report_error env args extra))
  vdo-Completes args index_memory policy extra name named =
      >>=-Completes (checked-Completes (get_vdo_write_policy_str policy) named) (λ p.
        with_config-Completes (vdo_config index_memory p)
          (report_error-Completes env well args extra))

  pub vdo_pool_create-Completes :
      (vg_name lv_name : Bytes) (pool_name : Option Bytes) (data_size virtual_size index_memory : ℕ)
      (compression deduplication : Bool) (policy : WritePolicy) (extra : Option (List ExtraArg))
      (name : Bytes)
      → get_vdo_write_policy_str policy ≡ ok name
      → Completes (
          vdo_pool_create env vg_name lv_name pool_name data_size virtual_size index_memory
            compression deduplication policy extra)
  unfolding vdo_pool_create
  vdo_pool_create-Completes vg_name lv_name pool_name data_size virtual_size index_memory
        compression deduplication policy extra name named =
      vdo-Completes _ index_memory policy extra name named

  pub vdo_pool_convert-Completes :
      (vg_name pool_lv : Bytes) (vdo_name : Option Bytes) (virtual_size index_memory : ℕ)
      (compression deduplication : Bool) (policy : WritePolicy) (extra : Option (List ExtraArg))
      (name : Bytes)
      → get_vdo_write_policy_str policy ≡ ok name
      → Completes (
          vdo_pool_convert env vg_name pool_lv vdo_name virtual_size index_memory compression
            deduplication policy extra)
  unfolding vdo_pool_convert
  vdo_pool_convert-Completes vg_name pool_lv vdo_name virtual_size index_memory compression
        deduplication policy extra name named =
      vdo-Completes _ index_memory policy extra name named
