-- ===== src/Zfs/Safety/Zvols.antt =====
-- The arrays of the operations on volumes and on the keys of encrypted datasets.
use libblockdev.Base.{
  ℕ, Option, List, [], ◌∷◌, ◌++◌, Bool, true, Bytes, codes, ◌≡◌, refl, arith, decimal,
}
use libblockdev.Utils.Args.{ExtraArg}
use libblockdev.Zfs.Names.{NotOption}
use libblockdev.Zfs.Pool.Guards.{extra_of}
use libblockdev.Zfs.Ops.{Env, flag}
use libblockdev.Base.Decimal.{digit_first, decimal-digit_first}
use libblockdev.Zfs.Safety.Shape.{
  one_name, end, plain, word, IsFine, literal, flag-Shape, last_flag-Shape, trusted_all,
  length-flag-append, appended-IsFine,
}
use libblockdev.Zfs.Safety.Rules.{Runs}
use libblockdev.Zfs.Safety.Steps.{named, with_zfs, report-Runs}
use libblockdev.Zfs.Ops.Zvols.{zvol_create, zvol_resize, zvol_destroy}

pub zvol_destroy-Runs :
    (env : Env) (name : Option Bytes) (recursive force : Bool)
    → Runs
        (IsFine (flag recursive (codes "-r") ++ flag force (codes "-f")) [])
        (zvol_destroy env name recursive force)
unfolding zvol_destroy
zvol_destroy-Runs env name recursive force = named _ _ λ nname hname. with_zfs _ (
    report-Runs _ _ (
      literal refl
          (literal refl (flag-Shape recursive _ (last_flag-Shape force _ (one_name hname)))),
      omega (
        arith,
        length-flag-append recursive (codes "-r")
            (flag force (codes "-f") ++ (codes "--" ∷ nname ∷ [])),
        length-flag-append force (codes "-f") (codes "--" ∷ nname ∷ []),
      ),
    ))

decimal-NotOption : (n : ℕ) → NotOption (decimal n)
decimal-NotOption n = digit_NotOption (decimal n) (decimal-digit_first n)
  where
    digit_NotOption : (s : Bytes) → digit_first s ≡ true → NotOption s
    digit_NotOption [] h = cc
    digit_NotOption (c ∷ s) h = (λ e. cc, ground arith)

pub zvol_create-Runs :
    (env : Env) (name : Option Bytes) (size : ℕ) (sparse : Bool) (extra : Option (List ExtraArg))
    → Runs
        (IsFine (codes "-V" ∷ (flag sparse (codes "-s") ++ [])) (extra_of extra))
        (zvol_create env name size sparse extra)
unfolding zvol_create
zvol_create-Runs env name size sparse extra = named _ _ λ n hn. with_zfs _ (
    report-Runs _ _ (
      appended-IsFine
        (codes "zfs" ∷ codes "create" ∷ codes "-V" ∷ decimal size ∷ flag sparse (codes "-s")) extra
        (codes "--" ∷ n ∷ [])
        (literal refl (
          literal refl (
            word (
              plain (decimal-NotOption size)
                (flag-Shape sparse _ (trusted_all (extra_of extra) (one_name hn)))))))
        (omega arith)))

pub zvol_resize-Runs :
    (env : Env) (name : Option Bytes) (size : ℕ) → Runs (IsFine [] []) (zvol_resize env name size)
unfolding zvol_resize
zvol_resize-Runs env name size = named _ _ λ n hn.
    with_zfs _
      (report-Runs _ _ (literal refl (literal refl (literal refl (plain hn end))), omega arith))
