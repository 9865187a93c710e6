-- ===== src/Zfs/Safety/Keys.antt =====
-- The arrays of the operations on the keys of encrypted datasets.
use libblockdev.Base.{
  ◌+◌, Option, none, some, List, [], ◌∷◌, ◌++◌, true, Bytes, length, codes, ◌≡◌, refl, arith, All,
  Bool-cases, inl, inr, has_prefix, any, ◌==◌, ◌||◌,
}
use libblockdev.Utils.Args.{ExtraArg}
use libblockdev.Zfs.Names.{NotOption}
use libblockdev.Zfs.Pool.{count_extra_args}
use libblockdev.Zfs.Pool.Guards.{extra_of}
use libblockdev.Zfs.Ops.{Env, slots_for}
use libblockdev.Zfs.Safety.Shape.{
  one_name, plain, word, IsFine, literal, letter, trusted_all, plain_all, appended-IsFine,
}
use libblockdev.Zfs.Safety.Rules.{Runs, RunsUpTo, >>-Runs, >>=-reads, Anything-Checks, pure-Checks}
use libblockdev.Zfs.Safety.Steps.{
  refused-Runs, named, with_zfs, with_cap, report-Runs, capture-Runs, with_input-Runs,
}
use libblockdev.Zfs.Ops.Keys.{
  encryption_load_key, encryption_change_key, encryption_key_status, load_key_from, change_key_to,
  change_key_args, check_key_location, encryption_unload_key,
}

pub encryption_unload_key-Runs :
    (env : Env) (dataset : Option Bytes) → Runs (IsFine [] []) (encryption_unload_key env dataset)
unfolding encryption_unload_key
encryption_unload_key-Runs env dataset = named _ _ λ ndataset hdataset. with_zfs _ (
    with_cap _ _ _ (report-Runs _ _ (literal refl (literal refl (one_name hdataset)), omega arith)))

-- `-L` where the place of the key is given.
abbrev pub load_words : Option Bytes → List Bytes
load_words none = []
load_words (some k) = codes "-L" ∷ []

file_NotOption : (k : Bytes) → has_prefix k (codes "file://") ≡ true → NotOption k
file_NotOption [] h = cc
file_NotOption (c ∷ k) h = (λ e. cc, ground arith)

load_key_from-Runs :
    (env : Env) (n : Bytes) (k : Option Bytes)
    → NotOption n
    → RunsUpTo 0 (IsFine (load_words k) []) (load_key_from env n k)
unfolding load_key_from
load_key_from-Runs env n none hn =
    report-Runs _ _ (literal refl (literal refl (one_name hn)), omega arith)
load_key_from-Runs env n (some k) hn = elim (Bool-cases (has_prefix k (codes "file://"))) [
  | inl e ↦ rw e (
      report-Runs _ _ (
        literal refl (literal refl (word (plain (file_NotOption k e) (one_name hn)))),
        omega arith,
      ))
  | inr e ↦ rw e (
      with_input-Runs _ _ _
        (literal refl (literal refl (word (literal refl (one_name hn)))), omega arith))
]

pub encryption_load_key-Runs :
    (env : Env) (dataset k : Option Bytes)
    → Runs (IsFine (load_words k) []) (encryption_load_key env dataset k)
unfolding encryption_load_key
encryption_load_key-Runs env dataset k = named _ _ λ n hn.
    >>-Runs _ (Anything-Checks (check_key_location k))
      λ _ _. with_zfs _ (with_cap _ _ _ (load_key_from-Runs env n k hn))

-- `-i` where no place is given, `-o` otherwise.
abbrev pub change_words : Option Bytes → List Bytes
change_words none = codes "-i" ∷ []
change_words (some k) = codes "-o" ∷ []

change_key-IsFine :
    (w : Bytes) (s : List Bytes) (extra : Option (List ExtraArg)) (n : Bytes)
    → NotOption n
    → All NotOption s
    → IsFine
        (w ∷ [])
        (extra_of extra)
        (slots_for (length s + 5 + count_extra_args extra + 1) (change_key_args (w ∷ s) extra n))
change_key-IsFine w s extra n hn hs =
    appended-IsFine (codes "zfs" ∷ codes "change-key" ∷ w ∷ s) extra (codes "--" ∷ n ∷ [])
      (literal refl
        (literal refl (word (plain_all s hs (trusted_all (extra_of extra) (one_name hn))))))
      (omega arith)

change_key_to-Runs :
    (env : Env) (n : Bytes) (k : Option Bytes) (extra : Option (List ExtraArg))
    → NotOption n
    → RunsUpTo 0 (IsFine (change_words k) (extra_of extra)) (change_key_to env n k extra)
unfolding change_key_to
change_key_to-Runs env n none extra hn =
    report-Runs _ _ (change_key-IsFine (codes "-i") [] extra n hn tt)
change_key_to-Runs env n (some k) extra hn =
    elim (Bool-cases (has_prefix k (codes "file://") || has_prefix k (codes "pkcs11:"))) [
      | inl e ↦ rw e (elim (Bool-cases (any (λ c. c == b',') k)) [
        | inl f ↦ rw f (refused-Runs _)
        | inr f ↦ rw f (
            report-Runs _ _ (
              change_key-IsFine (codes "-o") ((codes "keylocation=" ++ k) ∷ []) extra n hn
                (letter _ _ refl, tt)))
      ])
      | inr e ↦ rw e (
          with_input-Runs _ _ _ (
            change_key-IsFine (codes "-o") (codes "keylocation=prompt" ∷ []) extra n hn
              (letter _ _ refl, tt)))
    ]

pub encryption_change_key-Runs :
    (env : Env) (dataset k : Option Bytes) (extra : Option (List ExtraArg))
    → Runs (IsFine (change_words k) (extra_of extra)) (encryption_change_key env dataset k extra)
unfolding encryption_change_key
encryption_change_key-Runs env dataset k extra =
    named _ _ λ n hn. with_zfs _ (with_cap _ _ _ (change_key_to-Runs env n k extra hn))

pub encryption_key_status-Runs :
    (env : Env) (dataset : Option Bytes)
    → Runs
        (IsFine (codes "-H" ∷ codes "-p" ∷ codes "-o" ∷ []) [])
        (encryption_key_status env dataset)
unfolding encryption_key_status
encryption_key_status-Runs env dataset = named _ _ λ n hn. with_zfs _ (
    with_cap _ _ _ (
      >>=-reads
        (capture-Runs _ _ (
          literal refl
              (literal refl (word (word (word (literal refl (literal refl (one_name hn))))))),
          omega arith,
        ))
        (λ _. pure-Checks _)))
