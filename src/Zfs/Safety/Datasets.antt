-- ===== src/Zfs/Safety/Datasets.antt =====
-- The arrays of the operations on datasets.
use libblockdev.Base.{
  ℕ, suc, ◌≤◌, Option, none, some, List, [], ◌∷◌, ◌++◌, Bool, true, false, Bytes, codes, refl,
  arith, length-append, sym, subst,
}
use libblockdev.Utils.Args.{ExtraArg}
use libblockdev.Zfs.Pool.Guards.{extra_of}
use libblockdev.Zfs.Ops.{Env, flag}
use libblockdev.Zfs.Safety.Shape.{
  Shape, one_name, two_names, end, plain, word, IsFine, literal, flag-Shape, last_flag-Shape,
  trusted_all, length-flag-append, appended-IsFine, NotOption-append, behind_dashes-Shape,
}
use libblockdev.Zfs.Ops.{asking, answers}
use libblockdev.Zfs.Caps.{version_at_least}
use libblockdev.Zfs.Caps.Late.{version_at_least-le}
use libblockdev.Zfs.Safety.Rules.{
  Asks, question-Runs, Runs, >>-Runs, >>=-Runs, >>=-reads, Anything-Checks, pure-Checks,
}
use libblockdev.Zfs.Safety.Steps.{
  unasked, named, perhaps_named, with_zfs, report-Runs, capture-Runs,
}
use libblockdev.Zfs.Safety.Probes.{version_at_least-caps}
use libblockdev.Zfs.Caps.Probed.{IsConsistent}
use libblockdev.Zfs.Ops.Datasets.{
  dataset_create, dataset_list, dataset_get_info, dataset_mount, dataset_get_property,
  dataset_set_property, dataset_get_properties, behind_dashes, mount_options, check_mountpoint,
  dataset_fields, quiet_at_least_080, dataset_destroy, dataset_rename, dataset_unmount,
  dataset_inherit_property,
}

pub dataset_destroy-Runs :
    (env : Env) (name : Option Bytes) (recursive force : Bool)
    → Runs
        (IsFine (flag recursive (codes "-r") ++ flag force (codes "-f")) [])
        (dataset_destroy env name recursive force)
unfolding dataset_destroy
dataset_destroy-Runs env name recursive force = named _ _ λ nname hname. with_zfs _ (
    report-Runs _ _ (
      literal refl
          (literal refl (flag-Shape recursive _ (last_flag-Shape force _ (one_name hname)))),
      omega (
        arith,
        length-flag-append recursive (codes "-r")
            (flag force (codes "-f") ++ (codes "--" ∷ nname ∷ [])),
        length-flag-append force (codes "-f") (codes "--" ∷ nname ∷ []),
      ),
    ))

pub dataset_rename-Runs :
    (env : Env) (name new : Option Bytes) (create_parent force : Bool)
    → Runs
        (IsFine (flag create_parent (codes "-p") ++ flag force (codes "-f")) [])
        (dataset_rename env name new create_parent force)
unfolding dataset_rename
dataset_rename-Runs env name new create_parent force = named _ _ λ nname hname.
    named _ _ λ nnew hnew. with_zfs _ (
      report-Runs _ _ (
        literal refl (
            literal refl
              (flag-Shape create_parent _ (last_flag-Shape force _ (two_names hname hnew)))),
        omega (
          arith,
          length-flag-append create_parent (codes "-p")
              (flag force (codes "-f") ++ (codes "--" ∷ nname ∷ nnew ∷ [])),
          length-flag-append force (codes "-f") (codes "--" ∷ nname ∷ nnew ∷ []),
        ),
      ))

pub dataset_unmount-Runs :
    (env : Env) (name : Option Bytes) (force : Bool)
    → Runs (IsFine (flag force (codes "-f")) []) (dataset_unmount env name force)
unfolding dataset_unmount
dataset_unmount-Runs env name force = named _ _ λ nname hname. with_zfs _ (
    report-Runs _ _ (
      literal refl (literal refl (last_flag-Shape force _ (one_name hname))),
      omega (arith, length-flag-append force (codes "-f") (codes "--" ∷ nname ∷ [])),
    ))

pub dataset_inherit_property-Runs :
    (env : Env) (name property : Option Bytes)
    → Runs (IsFine [] []) (dataset_inherit_property env name property)
unfolding dataset_inherit_property
dataset_inherit_property-Runs env name property = named _ _ λ nname hname.
    named _ _ λ nproperty hproperty.
      with_zfs _
        (report-Runs _ _ (literal refl (literal refl (two_names hproperty hname)), omega arith))

pub dataset_create-Runs :
    (env : Env) (name : Option Bytes) (extra : Option (List ExtraArg))
    → Runs (IsFine [] (extra_of extra)) (dataset_create env name extra)
unfolding dataset_create
dataset_create-Runs env name extra = named _ _ λ n hn. with_zfs _ (
    report-Runs _ _ (
      appended-IsFine (codes "zfs" ∷ codes "create" ∷ []) extra (codes "--" ∷ n ∷ [])
        (literal refl (literal refl (trusted_all (extra_of extra) (one_name hn)))) (omega arith)))

once : {n : ℕ} → n ≤ suc 0 → n ≤ 2
once h = omega arith

quiet-Asks : (env : Env) → Asks {A = Bool} (quiet_at_least_080 env)
unfolding quiet_at_least_080 asking
quiet-Asks env = record {
  holds = λ w clean. (
    (
      (version_at_least (answers env w.calls) 0 8 0 (unasked w.plugin)).0.asked,
      once (version_at_least-le (answers env w.calls) 0 8 0 (unasked w.plugin)),
      refl,
    ),
    clean,
  );
  keeps = λ w clean s.
      subst IsConsistent (sym (version_at_least-caps (answers env w.calls) (unasked w.plugin))) s;
}

fields_word :
    {words given args : List Bytes} (b : Bool)
    → Shape words given args
    → Shape words given (dataset_fields b ∷ args)
fields_word true rest = literal refl rest
fields_word false rest = literal refl rest

pub dataset_list-Runs :
    (env : Env) (parent : Option Bytes) (recursive : Bool)
    → Runs
        (IsFine
          (codes "-H"
            ∷ codes "-p"
            ∷ codes "-t"
            ∷ (flag recursive (codes "-r") ++ (codes "-o" ∷ [])))
          [])
        (dataset_list env parent recursive)
unfolding dataset_list
dataset_list-Runs env parent recursive = perhaps_named parent (codes "Pool or parent dataset") λ ho.
    with_zfs _ (
      question-Runs (quiet-Asks env) λ enc.
        >>=-reads
          (capture-Runs _ _ (
            literal refl (
                literal refl (
                  word (
                    word (
                      word (
                        literal refl (
                          flag-Shape recursive _
                            (word (fields_word enc (behind_dashes-Shape parent ho))))))))),
            omega (
              arith,
              length-append (flag recursive (codes "-r"))
                  (codes "-o" ∷ dataset_fields enc ∷ behind_dashes parent),
            ),
          ))
          (λ _. pure-Checks _))

pub dataset_get_info-Runs :
    (env : Env) (name : Option Bytes)
    → Runs
        (IsFine (codes "-H" ∷ codes "-p" ∷ codes "-t" ∷ codes "-o" ∷ []) [])
        (dataset_get_info env name)
unfolding dataset_get_info
dataset_get_info-Runs env name = named _ _ λ n hn. with_zfs _ (
    question-Runs (quiet-Asks env) λ enc.
      >>=-reads
        (capture-Runs _ _ (
          literal refl (
              literal refl
                (word (word (word (literal refl (word (fields_word enc (one_name hn)))))))),
          omega arith,
        ))
        (λ _. Anything-Checks _))

-- `-o mountpoint=…` where a mountpoint is given.
abbrev pub mount_words : Option Bytes → List Bytes
mount_words none = []
mount_words (some m) = codes "-o" ∷ []

mount_options-Shape :
    {words given args : List Bytes} (m : Option Bytes)
    → Shape words given args
    → Shape (mount_words m ++ words) given (mount_options m ++ args)
mount_options-Shape none rest = rest
mount_options-Shape (some m) rest = word (literal refl rest)

pub dataset_mount-Runs :
    (env : Env) (name mountpoint : Option Bytes) (extra : Option (List ExtraArg))
    → Runs
        (IsFine (mount_words mountpoint ++ []) (extra_of extra))
        (dataset_mount env name mountpoint extra)
unfolding dataset_mount
dataset_mount-Runs env name mountpoint extra = named _ _ λ n hn.
    >>-Runs _ (Anything-Checks (check_mountpoint mountpoint)) λ _ _. with_zfs _ (
      report-Runs _ _ (
        appended-IsFine (codes "zfs" ∷ codes "mount" ∷ mount_options mountpoint) extra
          (codes "--" ∷ n ∷ [])
          (literal refl (
            literal refl
              (mount_options-Shape mountpoint (trusted_all (extra_of extra) (one_name hn)))))
          (omega arith)))

pub dataset_get_property-Runs :
    (env : Env) (name property : Option Bytes)
    → Runs (IsFine (codes "-H" ∷ codes "-p" ∷ []) []) (dataset_get_property env name property)
unfolding dataset_get_property
dataset_get_property-Runs env name property = named _ _ λ n hn. named _ _ λ p hp. with_zfs _ (
    >>=-reads
      (capture-Runs _ _
        (literal refl (literal refl (word (word (plain hp (one_name hn))))), omega arith))
      (λ _. Anything-Checks _))

pub dataset_set_property-Runs :
    (env : Env) (name property value : Option Bytes)
    → Runs (IsFine [] []) (dataset_set_property env name property value)
unfolding dataset_set_property
dataset_set_property-Runs env name property value = named _ _ λ n hn. named _ _ λ p hp.
    >>=-Runs (Anything-Checks _) λ v _. with_zfs _ (
      report-Runs _ _
        (literal refl (literal refl (plain (NotOption-append p _ hp) (plain hn end))), omega arith))

pub dataset_get_properties-Runs :
    (env : Env) (name : Option Bytes)
    → Runs (IsFine (codes "-H" ∷ codes "-p" ∷ []) []) (dataset_get_properties env name)
unfolding dataset_get_properties
dataset_get_properties-Runs env name = named _ _ λ n hn. with_zfs _ (
    >>=-reads
      (capture-Runs _ _
        (literal refl (literal refl (word (word (literal refl (one_name hn))))), omega arith))
      (λ _. pure-Checks _))
