-- ===== src/Deps/Codes.antt =====
-- src/plugins/check_deps.c: the code of the error that a check of dependencies leaves.
use libblockdev.Base.{
  ℕ, suc, Option, none, some, List, [], ◌∷◌, Bool, true, false, if◌then◌else◌, GError, Code, ◌≡◌,
  refl, exec_util_check_error,
}
use libblockdev.Utils.Version.{Tools, UtilDep}
use libblockdev.Deps.{
  Outcome, found, missing, State, note_missing, record_outcome, wanted, check_loop, check_all,
  has_all, check_deps,
}

-- There is no error, or one with the code.
abbrev pub HasCode : Code → Option GError → Type 0
HasCode c none = Unit
HasCode c (some e) = e.code ≡ c

note_missing-HasCode :
    (c : Code) (m : _) (e : Option GError) → HasCode c e → HasCode c (note_missing c m e)
unfolding note_missing
note_missing-HasCode c m none h = refl
note_missing-HasCode c m (some e) h = h

record_outcome-HasCode :
    (c : Code) (i : ℕ) (o : Outcome) (s : State)
    → HasCode c s.error
    → HasCode c (record_outcome c i o s).error
unfolding record_outcome
record_outcome-HasCode c i found s h = h
record_outcome-HasCode c i (missing none) s h = h
record_outcome-HasCode c i (missing (some m)) s h = note_missing-HasCode c m s.error h

module _ {ℓ} {D : Type ℓ} (c : Code) (attempt : D → Outcome) (req val : ℕ) where
  choice-HasCode :
      (b : Bool) (i : ℕ) (d : D) (s : State)
      → HasCode c s.error
      → HasCode c (if b then record_outcome c i (attempt d) s else s).error
  choice-HasCode true i d s h = record_outcome-HasCode c i (attempt d) s h
  choice-HasCode false i d s h = h

  check_loop-HasCode :
      (i : ℕ) (ds : List D) (s : State)
      → HasCode c s.error
      → HasCode c (check_loop c attempt req val i ds s).error
  unfolding check_loop
  check_loop-HasCode i [] s h = h
  check_loop-HasCode i (d ∷ ds) s h =
      check_loop-HasCode (suc i) ds _ (choice-HasCode (wanted i req val) i d s h)

check_all-HasCode {ℓ} :
    {D : Type ℓ} (c : Code) (attempt : D → Outcome) (req : ℕ) (ds : List D) (s : State)
    → HasCode c s.error
    → HasCode c (check_all c attempt req ds s).0.error
unfolding check_all
check_all-HasCode c attempt req ds s h =
    choice (has_all s.avail req) _ (check_loop-HasCode c attempt req s.avail 0 ds s h)
  where
    choice :
        (b : Bool) (x : State)
        → HasCode c x.error
        → HasCode c (if◌then◌else◌ {A = State × Bool} b (s, true) (x, has_all x.avail req)).0.error
    choice true x k = h
    choice false x k = k

pub check_deps-HasCode :
    (tools : Tools) (req : ℕ) (ds : List UtilDep) (s : State)
    → HasCode exec_util_check_error s.error
    → HasCode exec_util_check_error (check_deps tools req ds s).0.error
unfolding check_deps
check_deps-HasCode tools req ds s h = check_all-HasCode exec_util_check_error _ req ds s h
