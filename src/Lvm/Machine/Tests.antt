-- ===== src/Lvm/Machine/Tests.antt =====
-- Concrete runs of the operations of src/plugins/lvm/lvm.c.
use libblockdev.Base.{
  ℕ, none, some, List, [], ◌∷◌, ◌++◌, true, All, length, codes, ok, fail, exec_failed, exec_noout,
  ◌≡◌, refl, if◌then◌else◌, ◌==◌,
}
use libblockdev.Utils.Version.{Tools, matched}
use libblockdev.Lvm.Modes.{CacheMode, cache_get_mode_str}
use libblockdev.Lvm.Ops.{Call, World, Env, ◌>>=◌, ◌>>◌, prefixed, call_lvm_and_report_error}
use libblockdev.Lvm.Ops.Caches.{cache_create_cached_lv}
use libblockdev.Lvm.Ops.Queries.{pvs}
use libblockdev.Lvm.Safety.{Outcome}
use libblockdev.Lvm.Machine.{Op, Event, op, set_config, perform, fresh, run}
use libblockdev.Lvm.Machine.Plans.{plan}
use libblockdev.Lvm.Machine.Completes.{perform_succeeds}
use libblockdev.Lvm.Machine.Safe.{perform-Outcome}
use libblockdev.Lvm.Machine.Slots.{Fits}
use libblockdev.Lvm.Machine.Fits.{plan-Fits}
use libblockdev.Lvm.Machine.Sequences.{configured, Follows, run-configured, run-Follows}

-- `lvm` is there in version 2.03.20.
abbrev tools : Tools
tools = record {
  find_program = λ name. true;
  capture_output = λ argv. ok (codes "  LVM version:     2.03.20(2)");
  regex = λ p s. matched (some (codes "2.03.20"));
}

-- The run number `n` fails, the others succeed; a program whose output is wanted has none.
abbrev failing : ℕ → Env
failing n = record {
  tools = tools;
  fs_tools = tools;
  commands = λ before. record {
    report_error =
        λ argv extra. if length before == n then fail exec_failed (codes "no") else ok tt;
    capture_output = λ argv extra. fail exec_noout (codes "none");
  };
  report_progress = λ before argv extra extract. ok tt;
  have_module = λ name. ok true;
  atoi = λ s. 0;
  scan_hhu = λ s. none;
}

abbrev start : World
start = record {
  avail = 1;
  features = 0;
  modules = 0;
  error = none;
  globals = record { config_str = some (codes "x"); devices_str = none };
  calls = [];
  checks = [];
}

abbrev cached : Op
cached =
    Op.cache_create_cached_lv (codes "vg") (codes "lv") 1048576 524288 0 CacheMode.writeback 0 none
      none

-- All five programs run.
cached_runs : length (run (failing 9) (op cached ∷ []) start).calls ≡ 5
unfolding run cache_create_cached_lv ◌>>◌ prefixed call_lvm_and_report_error
cached_runs = refl

-- Where the second fails, the volumes made so far stay, and the error says what failed.
cached_fails :
    (perform (failing 1) cached start).0.error
    ≡ some (record {
      code = exec_failed;
      message =
          codes
            "Failed to create the cache pool 'lv_cache': Failed to create the pool metadata LV: no";
    })
unfolding perform cache_create_cached_lv ◌>>◌ prefixed call_lvm_and_report_error
cached_fails = refl

-- No physical volumes are an empty list.
no_pvs : pvs (failing 0) start ≡ (record start { calls = (pvs (failing 0) start).0.calls }, some [])
unfolding pvs ◌>>=◌ ◌>>◌
no_pvs = refl

perform-Outcome_example :
    Outcome
      (plan (failing 1) cached start.globals)
      start.globals
      start.calls
      (perform (failing 1) cached (fresh start))
perform-Outcome_example = perform-Outcome (failing 1) cached start

cache_known : cache_get_mode_str CacheMode.writeback ≡ ok (codes "writeback")
unfolding cache_get_mode_str
cache_known = refl

-- Every run ends well.
abbrev smooth : Env
smooth = record (failing 0) {
  commands = λ before. record {
    report_error = λ argv extra. ok tt;
    capture_output = λ argv extra. fail exec_noout (codes "none");
  };
}

perform_succeeds_example :
    ((perform smooth cached (fresh start)).1 ≡ some tt)
    × ((perform smooth cached (fresh start)).0.calls
        ≡ start.calls ++ plan smooth cached start.globals)
perform_succeeds_example =
    perform_succeeds smooth cached start
      (record { reports = λ b a e. refl; progresses = λ b a e p. refl })
      (codes "writeback", cache_known) refl

plan-Fits_example : All Fits (plan (failing 0) cached start.globals)
plan-Fits_example = plan-Fits (failing 0) cached start.globals

abbrev events : List Event
events = op cached ∷ set_config none ∷ op cached ∷ []

run-configured_example : (run (failing 7) events start).globals ≡ configured start.globals events
run-configured_example = run-configured (failing 7) events start

run-Follows_example :
    (cs : List Call) × ((run (failing 7) events start).calls ≡ start.calls ++ cs)
    × Follows (failing 7) start.globals events cs
run-Follows_example = run-Follows (failing 7) events start
