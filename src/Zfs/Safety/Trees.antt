-- ===== src/Zfs/Safety/Trees.antt =====
-- The arrays of the operations that list importable pools and vdevs, and of that on the status of a
-- scrub.
use libblockdev.Base.{
  ℕ, Option, none, some, List, [], ◌∷◌, Bytes, codes, refl, arith, Bool-cases, inl, inr,
}
use libblockdev.Zfs.Pool.{Argv}
use libblockdev.Zfs.Ops.{Env, World, Call, capture}
use libblockdev.Zfs.Safety.Shape.{one_name, end, word, IsFine, literal}
use libblockdev.Zfs.Safety.Rules.{
  Runs, Sound, Ended, OneMore, >>=-reads, Anything-Checks, pure-Checks,
}
use libblockdev.Zfs.Safety.Steps.{capture-OneMore, named, with_both, capture-Runs}
use libblockdev.Zfs.Ops.Trees.{
  pool_list_importable, pool_get_vdevs, pool_scrub_status, forgive, is_no_pools,
}

pub pool_get_vdevs-Runs :
    (env : Env) (name : Option Bytes) → Runs (IsFine (codes "-P" ∷ []) []) (pool_get_vdevs env name)
unfolding pool_get_vdevs
pool_get_vdevs-Runs env name = named _ _ λ n hn. with_both _ (
    >>=-reads (capture-Runs _ _ (literal refl (literal refl (word (one_name hn))), omega arith))
      (λ _. Anything-Checks _))

pub pool_scrub_status-Runs :
    (env : Env) (name : Option Bytes) → Runs (IsFine [] []) (pool_scrub_status env name)
unfolding pool_scrub_status
pool_scrub_status-Runs env name = named _ _ λ n hn. with_both _ (
    >>=-reads (capture-Runs _ _ (literal refl (literal refl (one_name hn)), omega arith))
      (λ _. Anything-Checks _))

forgive-Ended :
    (k : ℕ) (P : Argv → Type 0) (calls : List Call) (x : World × Option Bytes)
    → Ended k P calls x
    → OneMore k P calls x.0
    → Ended k P calls (forgive x)
unfolding forgive
forgive-Ended k P calls (w, some output) e run = e
forgive-Ended k P calls (w, none) e run = elim (Bool-cases (is_no_pools w.plugin.error)) [
  | inl none_there ↦ rw none_there (run, refl)
  | inr other ↦ rw other e
]

forgive-Sound : (x : World × Option Bytes) → Sound x.0 → Sound (forgive x).0
unfolding forgive
forgive-Sound (w, some output) s = s
forgive-Sound (w, none) s = elim (Bool-cases (is_no_pools w.plugin.error)) [
  | inl none_there ↦ rw none_there s
  | inr other ↦ rw other s
]

forgive-Runs :
    {P : Argv → Type 0} (env : Env) (a : Argv) → P a → Runs P (λ w. forgive (capture env a w))
forgive-Runs {P} env a p = record {
  holds = λ w clean.
      forgive-Ended 2 P w.calls (capture env a w) ((capture-Runs env a p).holds w clean)
        (capture-OneMore 2 P env a w p);
  keeps = λ w clean s.
      forgive-Sound (capture env a w) ((capture-Runs {k = 2} {P = P} env a p).keeps w clean s);
}

pub pool_list_importable-Runs : (env : Env) → Runs (IsFine [] []) (pool_list_importable env)
unfolding pool_list_importable
pool_list_importable-Runs env = with_both _ (
    >>=-reads (forgive-Runs env _ (literal refl (literal refl end), omega arith))
      (λ _. pure-Checks _))
