-- ===== src/Zfs/Safety/Snapshots.antt =====
-- The arrays of the operations on snapshots, clones and bookmarks.
use libblockdev.Base.{
  ℕ, Option, List, [], ◌∷◌, ◌++◌, Bool, false, Bytes, codes, ◌≡◌, refl, arith, length-append,
  Bool-cases, inl, inr, ◌==◌,
}
use libblockdev.Utils.Args.{ExtraArg}
use libblockdev.Zfs.Names.{NotOption}
use libblockdev.Zfs.Pool.Guards.{extra_of}
use libblockdev.Zfs.Ops.{Env, flag}
use libblockdev.Zfs.Reports.{before}
use libblockdev.Zfs.Ops.Datasets.{behind_dashes}
use libblockdev.Zfs.Safety.Shape.{
  one_name, two_names, word, IsFine, literal, letter, flag-Shape, last_flag-Shape, trusted_all,
  length-flag-append, appended-IsFine, behind_dashes-Shape,
}
use libblockdev.Zfs.Safety.Rules.{Runs, >>=-reads, pure-Checks}
use libblockdev.Zfs.Safety.Steps.{
  named, perhaps_named, with_zfs, with_cap, report-Runs, capture-Runs,
}
use libblockdev.Zfs.Ops.Snapshots.{
  snapshot_create, snapshot_list, snapshot_clone, bookmark_list, effective_clone, has_char,
  snapshot_destroy, snapshot_rollback, bookmark_create, bookmark_destroy, snapshot_promote,
  snapshot_hold, snapshot_release,
}

pub snapshot_destroy-Runs :
    (env : Env) (name : Option Bytes) (recursive : Bool)
    → Runs (IsFine (flag recursive (codes "-r")) []) (snapshot_destroy env name recursive)
unfolding snapshot_destroy
snapshot_destroy-Runs env name recursive = named _ _ λ nname hname. with_zfs _ (
    report-Runs _ _ (
      literal refl (literal refl (last_flag-Shape recursive _ (one_name hname))),
      omega (arith, length-flag-append recursive (codes "-r") (codes "--" ∷ nname ∷ [])),
    ))

pub snapshot_rollback-Runs :
    (env : Env) (name : Option Bytes) (force destroy_newer : Bool)
    → Runs
        (IsFine (flag force (codes "-f") ++ flag destroy_newer (codes "-r")) [])
        (snapshot_rollback env name force destroy_newer)
unfolding snapshot_rollback
snapshot_rollback-Runs env name force destroy_newer = named _ _ λ nname hname. with_zfs _ (
    report-Runs _ _ (
      literal refl
          (literal refl (flag-Shape force _ (last_flag-Shape destroy_newer _ (one_name hname)))),
      omega (
        arith,
        length-flag-append force (codes "-f")
            (flag destroy_newer (codes "-r") ++ (codes "--" ∷ nname ∷ [])),
        length-flag-append destroy_newer (codes "-r") (codes "--" ∷ nname ∷ []),
      ),
    ))

pub bookmark_create-Runs :
    (env : Env) (snapshot bookmark : Option Bytes)
    → Runs (IsFine [] []) (bookmark_create env snapshot bookmark)
unfolding bookmark_create
bookmark_create-Runs env snapshot bookmark = named _ _ λ nsnapshot hsnapshot.
    named _ _ λ nbookmark hbookmark. with_zfs _ (
      with_cap _ _ _ (
        report-Runs _ _ (literal refl (literal refl (two_names hsnapshot hbookmark)), omega arith)))

pub bookmark_destroy-Runs :
    (env : Env) (name : Option Bytes) → Runs (IsFine [] []) (bookmark_destroy env name)
unfolding bookmark_destroy
bookmark_destroy-Runs env name = named _ _ λ nname hname.
    with_zfs _
      (with_cap _ _ _ (report-Runs _ _ (literal refl (literal refl (one_name hname)), omega arith)))

pub snapshot_promote-Runs :
    (env : Env) (clone : Option Bytes) → Runs (IsFine [] []) (snapshot_promote env clone)
unfolding snapshot_promote
snapshot_promote-Runs env clone = named _ _ λ nclone hclone.
    with_zfs _ (report-Runs _ _ (literal refl (literal refl (one_name hclone)), omega arith))

pub snapshot_hold-Runs :
    (env : Env) (snapshot tag : Option Bytes) → Runs (IsFine [] []) (snapshot_hold env snapshot tag)
unfolding snapshot_hold
snapshot_hold-Runs env snapshot tag = named _ _ λ nsnapshot hsnapshot. named _ _ λ ntag htag.
    with_zfs _
      (report-Runs _ _ (literal refl (literal refl (two_names htag hsnapshot)), omega arith))

pub snapshot_release-Runs :
    (env : Env) (snapshot tag : Option Bytes)
    → Runs (IsFine [] []) (snapshot_release env snapshot tag)
unfolding snapshot_release
snapshot_release-Runs env snapshot tag = named _ _ λ nsnapshot hsnapshot. named _ _ λ ntag htag.
    with_zfs _
      (report-Runs _ _ (literal refl (literal refl (two_names htag hsnapshot)), omega arith))

pub snapshot_create-Runs :
    (env : Env) (name : Option Bytes) (recursive : Bool) (extra : Option (List ExtraArg))
    → Runs
        (IsFine (flag recursive (codes "-r") ++ []) (extra_of extra))
        (snapshot_create env name recursive extra)
unfolding snapshot_create
snapshot_create-Runs env name recursive extra = named _ _ λ n hn. with_zfs _ (
    report-Runs _ _ (
      appended-IsFine (codes "zfs" ∷ codes "snapshot" ∷ flag recursive (codes "-r")) extra
        (codes "--" ∷ n ∷ [])
        (literal refl
          (literal refl (flag-Shape recursive _ (trusted_all (extra_of extra) (one_name hn)))))
        (omega arith)))

pub snapshot_list-Runs :
    (env : Env) (dataset : Option Bytes) (recursive : Bool)
    → Runs
        (IsFine
          (codes "-H"
            ∷ codes "-p"
            ∷ codes "-t"
            ∷ (flag recursive (codes "-r") ++ (codes "-o" ∷ [])))
          [])
        (snapshot_list env dataset recursive)
unfolding snapshot_list
snapshot_list-Runs env dataset recursive = perhaps_named dataset (codes "Dataset") λ ho.
    with_zfs _ (
      >>=-reads
        (capture-Runs _ _ (
          literal refl (
              literal refl (
                word (
                  word (
                    word (
                      literal refl (
                        flag-Shape recursive _
                          (word (literal refl (behind_dashes-Shape dataset ho))))))))),
          omega (
            arith,
            length-append (flag recursive (codes "-r"))
                (codes "-o" ∷ codes "name,used,refer,creation" ∷ behind_dashes dataset),
          ),
        ))
        (λ _. pure-Checks _))

before-NotOption :
    (d : ℕ) (s t : Bytes) → NotOption s → (d == b'-') ≡ false → NotOption (before d s ++ (d ∷ t))
unfolding before
before-NotOption d [] t h k = absurd (h.0 refl)
before-NotOption d (c ∷ s) t h k = elim (Bool-cases (c == d)) [
  | inl same ↦ rw same (letter d t k)
  | inr other ↦ rw other (letter c (before d s ++ (d ∷ t)) h.1)
]

at_pool : (s c : Bytes) → NotOption s → NotOption (before b'@' s ++ (b'/' ∷ c))
unfolding before
at_pool [] c h = absurd (h.0 refl)
at_pool (d ∷ s) c h = elim (Bool-cases (d == b'@')) [
  | inl same ↦ rw same (letter b'/' c refl)
  | inr other ↦ rw other (letter d (before b'@' s ++ (b'/' ∷ c)) h.1)
]

effective_clone-NotOption :
    (s c : Bytes) → NotOption s → NotOption c → NotOption (effective_clone s c)
unfolding effective_clone
effective_clone-NotOption s c hs hc = elim (Bool-cases (has_char b'/' c)) [
  | inl e ↦ rw e hc
  | inr e ↦ rw e (elim (Bool-cases (has_char b'/' s)) [
    | inl f ↦ rw f (before-NotOption b'/' s c hs refl)
    | inr f ↦
        rw f
          (elim (Bool-cases (has_char b'@' s)) [ inl g ↦ rw g (at_pool s c hs) | inr g ↦ rw g hc ])
  ])
]

pub snapshot_clone-Runs :
    (env : Env) (snapshot clone : Option Bytes) (extra : Option (List ExtraArg))
    → Runs (IsFine [] (extra_of extra)) (snapshot_clone env snapshot clone extra)
unfolding snapshot_clone
snapshot_clone-Runs env snapshot clone extra = named _ _ λ s hs. named _ _ λ c hc. with_zfs _ (
    report-Runs _ _ (
      appended-IsFine (codes "zfs" ∷ codes "clone" ∷ []) extra
        (codes "--" ∷ s ∷ effective_clone s c ∷ [])
        (literal refl (
          literal refl
            (trusted_all (extra_of extra) (two_names hs (effective_clone-NotOption s c hs hc)))))
        (omega arith)))

pub bookmark_list-Runs :
    (env : Env) (dataset : Option Bytes)
    → Runs
        (IsFine (codes "-H" ∷ codes "-p" ∷ codes "-t" ∷ codes "-o" ∷ []) [])
        (bookmark_list env dataset)
unfolding bookmark_list
bookmark_list-Runs env dataset = perhaps_named dataset (codes "Dataset") λ ho. with_zfs _ (
    with_cap _ _ _ (
      >>=-reads
        (capture-Runs _ _ (
          literal refl (
              literal refl (
                word (
                  word
                    (word (literal refl (word (literal refl (behind_dashes-Shape dataset ho)))))))),
          omega arith,
        ))
        (λ _. pure-Checks _)))
