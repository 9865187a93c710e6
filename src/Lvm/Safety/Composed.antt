-- ===== src/Lvm/Safety/Composed.antt =====
-- src/plugins/lvm/lvm.c: the operations that run `lvm` several times, or under a configuration of their own.
use libblockdev.Base.{
  ℕ, Option, none, some, List, [], Bool, Bytes, Result, ok, err, refl, append-nil, sym,
}
use libblockdev.Utils.Args.{ExtraArg}
use libblockdev.Utils.Commands.{Argv}
use libblockdev.Lvm.Config.{Globals}
use libblockdev.Lvm.Modes.{CacheMode, cache_get_mode_str, WritePolicy, get_vdo_write_policy_str}
use libblockdev.Lvm.Ops.{Call, Env, M, ◌>>=◌, checked, call_lvm_and_report_error}
use libblockdev.Lvm.Ops.Logical.{lvcreate, lvdeactivate, lvrename}
use libblockdev.Lvm.Ops.Caches.{
  cache_create_pool, cache_create_cached_lv, cache_attach, writecache_attach,
  writecache_create_cached_lv, renamed, thpool_convert, cache_pool_convert, thpool_convert_args,
  cache_pool_convert_args,
}
use libblockdev.Lvm.Ops.Vdo.{
  vdo_config, with_config, vdo_pool_create, vdo_pool_convert, vdo_pool_create_args,
  vdo_pool_convert_args,
}
use libblockdev.Lvm.Ops.Queries.{lvinfo}
use libblockdev.Lvm.Ops.Lists.{vdo_pool_resize}
use libblockdev.Lvm.Machine.{Op}
use libblockdev.Lvm.Machine.Plans.{
  planned, cache_pool_plan, cached_lv_plan, writecache_plan, writecached_lv_plan, rename_plan,
  convert_plan, vdo_plan, plan,
}
use libblockdev.Lvm.Safety.{
  Runs, >>=-Runs, >>-Runs, >>=-reads, checked-Runs, pure-Runs, prefixed-Runs,
}
use libblockdev.Lvm.Safety.Steps.{
  lvresize-Runs, report_error-Runs, capture_output-Runs, with_config-Runs,
}

-- What is behind a check is planned where the check lets it pass.
planned-Runs :
    {A B : Type 0} (r : Result A) {q : A → Globals → List Call} {next : A → M B}
    → ((a : A) → Runs (q a) (next a))
    → Runs (λ g. planned r (λ a. q a g)) (checked r >>= next)
unfolding checked ◌>>=◌
planned-Runs (ok a) k = record { holds = (k a).holds }
planned-Runs (err e) k = record {
  holds = λ w clean. (([], [], refl, sym (append-nil w.calls)), refl, λ h. cc);
}

module _ (env : Env) where
  pub cache_create_pool-Runs :
      (vg_name pool_name : Bytes) (pool_size md_size : ℕ) (mode : CacheMode) (flags : ℕ)
      (fast_pvs : Option (List Bytes))
      → Runs
          (cache_pool_plan vg_name pool_name pool_size md_size mode flags fast_pvs)
          (cache_create_pool env vg_name pool_name pool_size md_size mode flags fast_pvs)
  unfolding cache_create_pool lvcreate
  cache_create_pool-Runs vg_name pool_name pool_size md_size mode flags fast_pvs =
      >>-Runs (prefixed-Runs _ (report_error-Runs _ none env)) (
        >>-Runs (prefixed-Runs _ (report_error-Runs _ none env))
          (planned-Runs (cache_get_mode_str mode) (λ mode_str. report_error-Runs _ none env)))

  pub cache_create_cached_lv-Runs :
      (vg_name lv_name : Bytes) (data_size cache_size md_size : ℕ) (mode : CacheMode) (flags : ℕ)
      (slow_pvs fast_pvs : Option (List Bytes))
      → Runs
          (cached_lv_plan vg_name lv_name data_size cache_size md_size mode flags slow_pvs fast_pvs)
          (cache_create_cached_lv env vg_name lv_name data_size cache_size md_size mode flags
            slow_pvs fast_pvs)
  unfolding cache_create_cached_lv lvcreate cache_attach
  cache_create_cached_lv-Runs vg_name lv_name data_size cache_size md_size mode flags slow_pvs
        fast_pvs =
      >>-Runs (prefixed-Runs _ (cache_create_pool-Runs _ _ cache_size md_size mode flags fast_pvs))
        (>>-Runs (prefixed-Runs _ (report_error-Runs _ none env))
          (prefixed-Runs _ (report_error-Runs _ none env)))

  pub writecache_attach-Runs :
      (vg_name data_lv cache_lv : Bytes) (extra : Option (List ExtraArg))
      → Runs
          (writecache_plan vg_name data_lv cache_lv extra)
          (writecache_attach env vg_name data_lv cache_lv extra)
  unfolding writecache_attach lvdeactivate
  writecache_attach-Runs vg_name data_lv cache_lv extra =
      >>-Runs (report_error-Runs _ none env)
        (>>-Runs (report_error-Runs _ none env) (report_error-Runs _ extra env))

  pub writecache_create_cached_lv-Runs :
      (vg_name lv_name : Bytes) (data_size cache_size : ℕ) (slow_pvs fast_pvs : Option (List Bytes))
      → Runs
          (writecached_lv_plan vg_name lv_name data_size cache_size slow_pvs fast_pvs)
          (writecache_create_cached_lv env vg_name lv_name data_size cache_size slow_pvs fast_pvs)
  unfolding writecache_create_cached_lv lvcreate
  writecache_create_cached_lv-Runs vg_name lv_name data_size cache_size slow_pvs fast_pvs =
      >>-Runs (prefixed-Runs _ (report_error-Runs _ none env)) (
        >>-Runs (prefixed-Runs _ (report_error-Runs _ none env))
          (prefixed-Runs _ (writecache_attach-Runs _ _ _ _)))

  renamed-Runs :
      (vg_name data_lv : Bytes) (name : Option Bytes)
      → Runs (rename_plan vg_name data_lv name) (renamed env vg_name data_lv name)
  unfolding renamed lvrename
  renamed-Runs vg_name data_lv none = pure-Runs tt
  renamed-Runs vg_name data_lv (some name) = report_error-Runs _ none env

  pub thpool_convert-Runs :
      (vg_name data_lv metadata_lv : Bytes) (name : Option Bytes) (extra : Option (List ExtraArg))
      → Runs
          (convert_plan
            (thpool_convert_args vg_name data_lv metadata_lv)
            vg_name
            data_lv
            name
            extra)
          (thpool_convert env vg_name data_lv metadata_lv name extra)
  unfolding thpool_convert
  thpool_convert-Runs vg_name data_lv metadata_lv name extra =
      >>-Runs (report_error-Runs _ extra env) (renamed-Runs vg_name data_lv name)

  pub cache_pool_convert-Runs :
      (vg_name data_lv metadata_lv : Bytes) (name : Option Bytes) (extra : Option (List ExtraArg))
      → Runs
          (convert_plan
            (cache_pool_convert_args vg_name data_lv metadata_lv)
            vg_name
            data_lv
            name
            extra)
          (cache_pool_convert env vg_name data_lv metadata_lv name extra)
  unfolding cache_pool_convert
  cache_pool_convert-Runs vg_name data_lv metadata_lv name extra =
      >>-Runs (report_error-Runs _ extra env) (renamed-Runs vg_name data_lv name)

  -- A run under the configuration of a VDO pool.
  vdo-Runs :
      (args : Argv) (index_memory : ℕ) (write_policy : WritePolicy) (extra : Option (List ExtraArg))
      → Runs (vdo_plan args index_memory write_policy extra) (
          checked (get_vdo_write_policy_str write_policy) >>= λ policy.
          with_config (vdo_config index_memory policy) (call_lvm_and_report_error env args extra))
  unfolding vdo_config
  vdo-Runs args index_memory write_policy extra =
      planned-Runs (get_vdo_write_policy_str write_policy) (λ policy.
        with_config-Runs (vdo_config index_memory policy) (λ g. refl)
          (report_error-Runs args extra env))

  pub vdo_pool_create-Runs :
      (vg_name lv_name : Bytes) (pool_name : Option Bytes) (data_size virtual_size index_memory : ℕ)
      (compression deduplication : Bool) (policy : WritePolicy) (extra : Option (List ExtraArg))
      → Runs
          (vdo_plan
            (vdo_pool_create_args vg_name lv_name pool_name data_size virtual_size compression
              deduplication)
            index_memory
            policy
            extra)
          (vdo_pool_create env vg_name lv_name pool_name data_size virtual_size index_memory
            compression deduplication policy extra)
  unfolding vdo_pool_create
  vdo_pool_create-Runs vg_name lv_name pool_name data_size virtual_size index_memory compression
        deduplication policy extra =
      vdo-Runs _ index_memory policy extra

  pub vdo_pool_convert-Runs :
      (vg_name pool_lv : Bytes) (name : Option Bytes) (virtual_size index_memory : ℕ)
      (compression deduplication : Bool) (policy : WritePolicy) (extra : Option (List ExtraArg))
      → Runs
          (vdo_plan
            (vdo_pool_convert_args vg_name pool_lv name virtual_size compression deduplication)
            index_memory
            policy
            extra)
          (vdo_pool_convert env vg_name pool_lv name virtual_size index_memory compression
            deduplication policy extra)
  unfolding vdo_pool_convert
  vdo_pool_convert-Runs vg_name pool_lv name virtual_size index_memory compression deduplication
        policy extra =
      vdo-Runs _ index_memory policy extra

  pub vdo_pool_resize-Runs :
      (vg_name pool_name : Bytes) (size : ℕ) (extra : Option (List ExtraArg))
      → Runs
          (plan env (Op.vdo_pool_resize vg_name pool_name size extra))
          (vdo_pool_resize env vg_name pool_name size extra)
  unfolding vdo_pool_resize lvinfo plan
  vdo_pool_resize-Runs vg_name pool_name size extra =
      >>=-Runs (>>=-reads (capture_output-Runs _ none env) (λ _. checked-Runs _))
        (λ info. >>-Runs (checked-Runs _) (lvresize-Runs env vg_name pool_name size extra))
