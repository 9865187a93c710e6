-- ===== src/Zfs/Safety/Vdevs.antt =====
-- The arrays of the operations on vdevs.
use libblockdev.Base.{
  Option, List, [], ◌∷◌, ◌++◌, Bool, Bytes, codes, refl, arith, All, All-append, length-append,
}
use libblockdev.Utils.Args.{ExtraArg}
use libblockdev.Zfs.Names.{NotOption}
use libblockdev.Zfs.Pool.{optional}
use libblockdev.Zfs.Pool.Guards.{extra_of, check_raid_level-All, check_vdevs-ok}
use libblockdev.Zfs.Ops.{Env, flag}
use libblockdev.Zfs.Safety.Shape.{
  two_names, three_names, name_and, word, IsFine, literal, last_flag-Shape, trusted_all,
  length-flag-append, length-optional, appended-IsFine,
}
use libblockdev.Zfs.Safety.Rules.{Runs, >>-Runs, >>=-Runs, checked-Checks}
use libblockdev.Zfs.Safety.Steps.{named, perhaps_named, with_both, with_cap, report-Runs}
use libblockdev.Zfs.Ops.Vdevs.{
  pool_add_vdev, pool_remove_vdev, pool_attach, pool_detach, pool_replace, pool_online,
  pool_offline, pool_trim_start, pool_trim_stop, pool_clear,
}

pub pool_remove_vdev-Runs :
    (env : Env) (name vdev : Option Bytes) → Runs (IsFine [] []) (pool_remove_vdev env name vdev)
unfolding pool_remove_vdev
pool_remove_vdev-Runs env name vdev = named _ _ λ nname hname. named _ _ λ nvdev hvdev.
    with_both _ (report-Runs _ _ (literal refl (literal refl (two_names hname hvdev)), omega arith))

pub pool_attach-Runs :
    (env : Env) (name existing new : Option Bytes)
    → Runs (IsFine [] []) (pool_attach env name existing new)
unfolding pool_attach
pool_attach-Runs env name existing new = named _ _ λ nname hname. named _ _ λ nexisting hexisting.
    named _ _ λ nnew hnew. with_both _ (
      report-Runs _ _ (literal refl (literal refl (three_names hname hexisting hnew)), omega arith))

pub pool_detach-Runs :
    (env : Env) (name vdev : Option Bytes) → Runs (IsFine [] []) (pool_detach env name vdev)
unfolding pool_detach
pool_detach-Runs env name vdev = named _ _ λ nname hname. named _ _ λ nvdev hvdev.
    with_both _ (report-Runs _ _ (literal refl (literal refl (two_names hname hvdev)), omega arith))

pub pool_replace-Runs :
    (env : Env) (name old new : Option Bytes) (force : Bool)
    → Runs (IsFine (flag force (codes "-f")) []) (pool_replace env name old new force)
unfolding pool_replace
pool_replace-Runs env name old new force = named _ _ λ nname hname. named _ _ λ nold hold.
    named _ _ λ nnew hnew. with_both _ (
      report-Runs _ _ (
        literal refl (literal refl (last_flag-Shape force _ (three_names hname hold hnew))),
        omega
            (arith, length-flag-append force (codes "-f") (codes "--" ∷ nname ∷ nold ∷ nnew ∷ [])),
      ))

pub pool_online-Runs :
    (env : Env) (name vdev : Option Bytes) (expand : Bool)
    → Runs (IsFine (flag expand (codes "-e")) []) (pool_online env name vdev expand)
unfolding pool_online
pool_online-Runs env name vdev expand = named _ _ λ nname hname. named _ _ λ nvdev hvdev.
    with_both _ (
      report-Runs _ _ (
        literal refl (literal refl (last_flag-Shape expand _ (two_names hname hvdev))),
        omega (arith, length-flag-append expand (codes "-e") (codes "--" ∷ nname ∷ nvdev ∷ [])),
      ))

pub pool_offline-Runs :
    (env : Env) (name vdev : Option Bytes) (temporary : Bool)
    → Runs (IsFine (flag temporary (codes "-t")) []) (pool_offline env name vdev temporary)
unfolding pool_offline
pool_offline-Runs env name vdev temporary = named _ _ λ nname hname. named _ _ λ nvdev hvdev.
    with_both _ (
      report-Runs _ _ (
        literal refl (literal refl (last_flag-Shape temporary _ (two_names hname hvdev))),
        omega (arith, length-flag-append temporary (codes "-t") (codes "--" ∷ nname ∷ nvdev ∷ [])),
      ))

pub pool_trim_start-Runs :
    (env : Env) (name vdev : Option Bytes) → Runs (IsFine [] []) (pool_trim_start env name vdev)
unfolding pool_trim_start
pool_trim_start-Runs env name vdev = named name (codes "Pool name") λ nname hname.
    perhaps_named vdev (codes "Vdev") λ ho. with_both _ (
      with_cap _ _ _ (
        report-Runs _ _
          (literal refl (literal refl (name_and hname ho)), omega (arith, length-optional vdev))))

pub pool_trim_stop-Runs :
    (env : Env) (name vdev : Option Bytes)
    → Runs (IsFine (codes "-s" ∷ []) []) (pool_trim_stop env name vdev)
unfolding pool_trim_stop
pool_trim_stop-Runs env name vdev = named name (codes "Pool name") λ nname hname.
    perhaps_named vdev (codes "Vdev") λ ho. with_both _ (
      with_cap _ _ _ (
        report-Runs _ _ (
          literal refl (literal refl (word (name_and hname ho))),
          omega (arith, length-optional vdev),
        )))

pub pool_clear-Runs :
    (env : Env) (name vdev : Option Bytes) → Runs (IsFine [] []) (pool_clear env name vdev)
unfolding pool_clear
pool_clear-Runs env name vdev = named name (codes "Pool name") λ nname hname.
    perhaps_named vdev (codes "Vdev") λ ho. with_both _ (
      report-Runs _ _
        (literal refl (literal refl (name_and hname ho)), omega (arith, length-optional vdev)))

pub pool_add_vdev-Runs :
    (env : Env) (name : Option Bytes) (vdevs : Option (List Bytes)) (level : Option Bytes)
    (extra : Option (List ExtraArg))
    → Runs (IsFine [] (extra_of extra)) (pool_add_vdev env name vdevs level extra)
unfolding pool_add_vdev
pool_add_vdev-Runs env name vdevs level extra = named _ _ λ n hn.
    >>-Runs (λ _. All NotOption (optional level))
      (checked-Checks (λ _ h. check_raid_level-All level h))
      λ _ hl.
        >>=-Runs {Q = All NotOption} (checked-Checks (λ vs h. (check_vdevs-ok vdevs vs h).1))
          λ vs hv. with_both _ (
            report-Runs _ _ (
              appended-IsFine (codes "zpool" ∷ codes "add" ∷ []) extra
                (codes "--" ∷ n ∷ (optional level ++ vs))
                (literal refl (
                  literal refl (
                    trusted_all (extra_of extra)
                      (name_and hn (All-append NotOption (optional level) vs hl hv)))))
                (omega (arith, length-append (optional level) vs))))
