-- ===== src/Deps/Tests.antt =====
-- Concrete runs of src/plugins/check_deps.c.
use libblockdev.Base.Bits.{bit, bit-zero}
use libblockdev.Base.{
  ℕ, zero, suc, ◌<◌, ◌≤◌, none, some, List, [], ◌∷◌, Bool, true, false, ◌≡◌, ◌≢◌, ◌↔◌, ◌⊎◌, refl,
  arith, Bytes, codes, ok, err, GError, spawn_failed,
}
use libblockdev.Utils.Version.{Tools, UtilDep, no_match, check_util_version}
use libblockdev.Deps.{
  State, check_deps, DbusDep, Bus, FeatureDep, check_features, outcome_of, has_all, wanted,
}
use libblockdev.Deps.Loop.{found_from}
use libblockdev.Deps.Programs.{check_deps_error, check_deps_iff, check_features_silent}
use libblockdev.Deps.Threads.Progress.{threads_progress, threads_end, steps_of}
use libblockdev.Deps.Threads.{
  Step, start, waiting, holding, looping, unlocked, returned, System, move, load_miss, lock,
  reload_miss, probe_hit, unlock, last_load, Reach, here, next, threads_sound, threads_exclusive,
}

-- Only `zpool` is in the path.
abbrev tools : Tools
tools = record {
  find_program = λ name. elim name [ [] ↦ false | c ∷ s ↦ true ];
  capture_output = λ _. ok [];
  regex = λ _ _. no_match;
}

abbrev no_tools : Tools
no_tools = record tools { find_program = λ _. false }

abbrev dep : Bytes → UtilDep
dep name = record { name = name; version = none; ver_arg = none; ver_regexp = none }

abbrev table : List UtilDep
table = dep (codes "zpool") ∷ dep [] ∷ []

abbrev nothing : State
nothing = record { avail = 0; error = none }

-- The second bit of 3 is set, and no bit from the third on.
required : (j : ℕ) → bit j 3 ≡ true → j < 2
unfolding bit
required zero h = omega arith
required (suc zero) h = omega arith
required (suc (suc j)) h = absurd (clash (bit-zero j) h)
  where
    clash : {b : Bool} → b ≡ false → b ≡ true → ⊥
    clash e f = cc

check_deps_error_example :
    ((check_deps tools 3 table nothing).1 ≡ false)
    ↔ ((check_deps tools 3 table nothing).0.error ≢ none)
check_deps_error_example = check_deps_error tools 3 table nothing required refl

abbrev bus : Bus
bus = record { service_available = λ _. ok true; version_property = λ _. ok (codes "1.0") }

abbrev services : List DbusDep
services =
    record { bus_name = codes "com.redhat.lvmdbus1"; version = some (codes "1.1") }
    ∷ record { bus_name = codes "org.example"; version = none }
    ∷ []

check_deps_iff_example : ((check_deps tools 3 table nothing).1 ≡ true) ↔ (
    (j : ℕ)
    → bit j 3 ≡ true
    → (bit j 0 ≡ true)
      ⊎ (found_from (λ d. outcome_of (check_util_version tools d)) 0 table j ≡ true))
check_deps_iff_example = check_deps_iff tools 3 table nothing

abbrev feature : FeatureDep
feature = record {
  util_name = codes "mkfs.f2fs";
  feature = codes "extra_attr";
  feature_arg = codes "-h";
  feature_regexp = none;
}

abbrev spawn_error : GError
spawn_error = record { code = spawn_failed; message = codes "Permission denied" }

-- A table of two features of one program, as that of the LVM plugin, the first of which is known.
abbrev broken : Tools
broken = record tools { capture_output = λ _. err spawn_error }

abbrev other : FeatureDep
other = record feature { feature = codes "casefold" }

abbrev half : State
half = record { avail = 1; error = none }

check_features_silent_example : check_features broken 3 (feature ∷ other ∷ []) half ≡ (half, false)
check_features_silent_example =
    check_features_silent broken 3 (feature ∷ other ∷ []) half refl
      ((refl, (spawn_error, refl, refl, refl)), ((refl, (spawn_error, refl, refl, refl)), tt))

first_found : (check_deps tools 1 table nothing).1 ≡ true
unfolding check_deps check_util_version
first_found = refl

-- Two threads that each require the one dependency: thread 0 takes the lock, finds it and returns, and
-- thread 1, which came before it was found, waits.
abbrev needs : ℕ → ℕ
needs t = 1

abbrev always : ℕ → Bool
always i = true

abbrev at_start : System
at_start = record { avail = 0; holder = none; phase = λ _. start }

abbrev s1 : System
s1 = move (move at_start 0 waiting) 1 waiting

abbrev s2 : System
s2 = record (move s1 0 holding) { holder = some 0 }

abbrev s3 : System
s3 = record (move (move s2 0 (looping 0 0)) 0 (looping 1 0)) { avail = 1 }

abbrev s4 : System
s4 = move (record (move s3 0 unlocked) { holder = none }) 0 (returned true)

Reach-s3 : Reach needs 1 always at_start s3
unfolding wanted
Reach-s3 =
    next
      (next
        (next (next (next here (load_miss 0 refl refl)) (load_miss 1 refl refl)) (lock 0 refl refl))
        (reload_miss 0 refl refl))
      (probe_hit 0 0 0 refl (omega arith) refl refl)

Reach-s4 : Reach needs 1 always at_start s4
Reach-s4 = next (next Reach-s3 (unlock 0 1 0 refl (omega arith))) (last_load 0 refl)

threads_sound_example :
    (has_all s4.avail (needs 0) ≡ true)
    × ((j : ℕ) → bit j (needs 0) ≡ true → (bit j at_start.avail ≡ true) ⊎ (always j ≡ true))
threads_sound_example = threads_sound needs 1 always at_start s4 (λ _. refl) Reach-s4 0 refl

threads_exclusive_example : ◌≡◌ {A = ℕ} 0 0
threads_exclusive_example =
    threads_exclusive needs 1 always at_start s3 (λ _. refl) Reach-s3 0 0 refl refl

Reach-s1 : Reach needs 1 always at_start s1
Reach-s1 = next (next here (load_miss 0 refl refl)) (load_miss 1 refl refl)

-- Both threads wait for the lock.
threads_progress_example : (s : System) × Step needs 1 always s1 s
threads_progress_example =
    threads_progress needs 1 always at_start s1 (λ _. refl) refl Reach-s1 0 (λ b h. cc)

threads_end_example :
    (steps_of needs 1 always 0 Reach-s4 ≤ 6)
    × (steps_of needs 1 always 0 Reach-s4 ≡ 6 → (b : Bool) × (s4.phase 0 ≡ returned b))
threads_end_example = threads_end needs 1 always at_start s4 (λ _. refl) Reach-s4 0
