-- ===== src/Zfs/Safety/Pools.antt =====
-- The arrays of the operations on whole pools.
use libblockdev.Base.{
  Option, List, [], ◌∷◌, ◌++◌, Bool, Bytes, codes, ◌≡◌, refl, arith, append_assoc, ◌∙◌, ok,
}
use libblockdev.Utils.Args.{ExtraArg}
use libblockdev.Zfs.Pool.{optional}
use libblockdev.Zfs.Pool.Guards.{extra_of}
use libblockdev.Zfs.Pool.{Argv, dirs_of, search_args, pool_create_argv, pool_import_argv}
use libblockdev.Zfs.Pool.Operands.{pool_create_argv-ok, pool_import_argv-ok}
use libblockdev.Zfs.Ops.{Env, flag}
use libblockdev.Zfs.Safety.Shape.{
  one_name, end, operands, plain, word, IsFine, literal, flag-Shape, last_flag-Shape, trusted_all,
  length-flag-append, NotOption-append, search_args-Shape, dir_words,
}
use libblockdev.Zfs.Safety.Rules.{
  Runs, >>=-Runs, >>=-reads, checked-Checks, Anything-Checks, pure-Checks,
}
use libblockdev.Zfs.Safety.Steps.{named, with_both, with_zpool, with_cap, report-Runs, capture-Runs}
use libblockdev.Zfs.Ops.Pools.{
  pool_create, pool_import, pool_list, pool_get_info, pool_get_property, pool_set_property,
  pool_get_properties, pool_destroy, pool_export, pool_scrub_start, pool_scrub_stop,
  pool_scrub_pause, pool_upgrade, pool_history,
}

pub pool_destroy-Runs :
    (env : Env) (name : Option Bytes) (force : Bool)
    → Runs (IsFine (flag force (codes "-f")) []) (pool_destroy env name force)
unfolding pool_destroy
pool_destroy-Runs env name force = named _ _ λ nname hname. with_both _ (
    report-Runs _ _ (
      literal refl (literal refl (last_flag-Shape force _ (one_name hname))),
      omega (arith, length-flag-append force (codes "-f") (codes "--" ∷ nname ∷ [])),
    ))

pub pool_export-Runs :
    (env : Env) (name : Option Bytes) (force : Bool)
    → Runs (IsFine (flag force (codes "-f")) []) (pool_export env name force)
unfolding pool_export
pool_export-Runs env name force = named _ _ λ nname hname. with_both _ (
    report-Runs _ _ (
      literal refl (literal refl (last_flag-Shape force _ (one_name hname))),
      omega (arith, length-flag-append force (codes "-f") (codes "--" ∷ nname ∷ [])),
    ))

pub pool_scrub_start-Runs :
    (env : Env) (name : Option Bytes) → Runs (IsFine [] []) (pool_scrub_start env name)
unfolding pool_scrub_start
pool_scrub_start-Runs env name = named _ _ λ nname hname.
    with_both _ (report-Runs _ _ (literal refl (literal refl (one_name hname)), omega arith))

pub pool_scrub_stop-Runs :
    (env : Env) (name : Option Bytes)
    → Runs (IsFine (codes "-s" ∷ []) []) (pool_scrub_stop env name)
unfolding pool_scrub_stop
pool_scrub_stop-Runs env name = named _ _ λ nname hname.
    with_both _ (report-Runs _ _ (literal refl (literal refl (word (one_name hname))), omega arith))

pub pool_scrub_pause-Runs :
    (env : Env) (name : Option Bytes)
    → Runs (IsFine (codes "-p" ∷ []) []) (pool_scrub_pause env name)
unfolding pool_scrub_pause
pool_scrub_pause-Runs env name = named _ _ λ nname hname. with_both _ (
    with_cap _ _ _
      (report-Runs _ _ (literal refl (literal refl (word (one_name hname))), omega arith)))

pub pool_upgrade-Runs :
    (env : Env) (name : Option Bytes) → Runs (IsFine [] []) (pool_upgrade env name)
unfolding pool_upgrade
pool_upgrade-Runs env name = named _ _ λ nname hname.
    with_zpool _ (report-Runs _ _ (literal refl (literal refl (one_name hname)), omega arith))

pub pool_history-Runs :
    (env : Env) (name : Option Bytes) → Runs (IsFine [] []) (pool_history env name)
unfolding pool_history
pool_history-Runs env name = named _ _ λ nname hname.
    with_zpool _ (capture-Runs _ _ (literal refl (literal refl (one_name hname)), omega arith))

pub pool_create-Runs :
    (env : Env) (name : Option Bytes) (vdevs : Option (List Bytes)) (level : Option Bytes)
    (extra : Option (List ExtraArg))
    → Runs (IsFine [] (extra_of extra)) (pool_create env name vdevs level extra)
unfolding pool_create
pool_create-Runs env name vdevs level extra =
    >>=-Runs {Q = IsFine [] (extra_of extra)} (checked-Checks (λ a h. fine a h))
      λ a ha. with_both _ (report-Runs _ _ ha)
  where
    fine :
        (a : Argv)
        → pool_create_argv (ok tt) name vdevs level extra ≡ ok a
        → IsFine [] (extra_of extra) a
    fine a h =
        let (n, vs, _, _, e, safe, fits) = pool_create_argv-ok (ok tt) name vdevs level extra h in
        (
          rw e (literal refl (literal refl (trusted_all (extra_of extra) (operands safe)))),
          omega (arith, fits),
        )

pub pool_import-Runs :
    (env : Env) (name new_name : Option Bytes) (dirs : Option (List Bytes)) (force : Bool)
    (extra : Option (List ExtraArg))
    → Runs
        (IsFine
          (flag force (codes "-f") ++ (dir_words (dirs_of dirs) ++ []))
          (dirs_of dirs ++ extra_of extra))
        (pool_import env name new_name dirs force extra)
unfolding pool_import
pool_import-Runs env name new_name dirs force extra =
    >>=-Runs
      {Q = IsFine (flag force (codes "-f") ++ (dir_words (dirs_of dirs) ++ []))
        (dirs_of dirs ++ extra_of extra)}
      (checked-Checks (λ a h. fine a h)) λ a ha. with_both _ (report-Runs _ _ ha)
  where
    fine :
        (a : Argv)
        → pool_import_argv (ok tt) name new_name dirs force extra ≡ ok a
        → IsFine
            (flag force (codes "-f") ++ (dir_words (dirs_of dirs) ++ []))
            (dirs_of dirs ++ extra_of extra)
            a
    fine a h =
        let (n, _, e, safe, fits) = pool_import_argv-ok (ok tt) name new_name dirs force extra h in
        let tail = codes "--" ∷ n ∷ optional new_name in
        let regroup =
          append_assoc (flag force (codes "-f") ++ search_args (dirs_of dirs)) (extra_of extra) tail
          ∙ append_assoc (flag force (codes "-f")) (search_args (dirs_of dirs))
              (extra_of extra ++ tail) in
        (
          rw e (
              literal refl (
                literal refl (
                  rw regroup (
                    flag-Shape force _ (
                      search_args-Shape (dirs_of dirs)
                        (trusted_all (extra_of extra) (operands safe))))))),
          omega (arith, fits),
        )

pub pool_list-Runs :
    (env : Env) → Runs (IsFine (codes "-H" ∷ codes "-p" ∷ codes "-o" ∷ []) []) (pool_list env)
unfolding pool_list
pool_list-Runs env = with_both _ (
    >>=-reads
      (capture-Runs _ _
        (literal refl (literal refl (word (word (word (literal refl end))))), omega arith))
      (λ _. pure-Checks _))

pub pool_get_info-Runs :
    (env : Env) (name : Option Bytes)
    → Runs (IsFine (codes "-H" ∷ codes "-p" ∷ codes "-o" ∷ []) []) (pool_get_info env name)
unfolding pool_get_info
pool_get_info-Runs env name = named _ _ λ n hn. with_both _ (
    >>=-reads
      (capture-Runs _ _ (
        literal refl (literal refl (word (word (word (literal refl (one_name hn)))))),
        omega arith,
      ))
      (λ _. Anything-Checks _))

pub pool_get_property-Runs :
    (env : Env) (name property : Option Bytes)
    → Runs (IsFine (codes "-H" ∷ codes "-p" ∷ []) []) (pool_get_property env name property)
unfolding pool_get_property
pool_get_property-Runs env name property = named _ _ λ n hn. named _ _ λ p hp. with_both _ (
    >>=-reads
      (capture-Runs _ _
        (literal refl (literal refl (word (word (plain hp (one_name hn))))), omega arith))
      (λ _. Anything-Checks _))

pub pool_set_property-Runs :
    (env : Env) (name property value : Option Bytes)
    → Runs (IsFine [] []) (pool_set_property env name property value)
unfolding pool_set_property
pool_set_property-Runs env name property value = named _ _ λ n hn. named _ _ λ p hp.
    >>=-Runs (Anything-Checks _) λ v _. with_both _ (
      report-Runs _ _
        (literal refl (literal refl (plain (NotOption-append p _ hp) (plain hn end))), omega arith))

pub pool_get_properties-Runs :
    (env : Env) (name : Option Bytes)
    → Runs (IsFine (codes "-H" ∷ codes "-p" ∷ []) []) (pool_get_properties env name)
unfolding pool_get_properties
pool_get_properties-Runs env name = named _ _ λ n hn. with_both _ (
    >>=-reads
      (capture-Runs _ _
        (literal refl (literal refl (word (word (literal refl (one_name hn))))), omega arith))
      (λ _. pure-Checks _))
