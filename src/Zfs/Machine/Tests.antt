-- ===== src/Zfs/Machine/Tests.antt =====
-- Concrete runs of the operations of src/plugins/zfs.c.
use libblockdev.Base.{
  none, some, List, [], ◌∷◌, true, ◌≡◌, refl, inl, arith, codes, ok, fail, exec_failed,
}
use libblockdev.Utils.Version.{Tools, no_match}
use libblockdev.Zfs.Version.{no_caps}
use libblockdev.Zfs.Names.{validate_name_not_option}
use libblockdev.Zfs.Ops.{World, Env, slots_for, ◌>>=◌, ◌>>◌, checked, need_tools, report, log}
use libblockdev.Zfs.Ops.Vdevs.{pool_attach}
use libblockdev.Zfs.Safety.Rules.{Sound}
use libblockdev.Zfs.Machine.{Op, Event, failed, op, version, closed, step, run}
use libblockdev.Zfs.Scrub.Tests.{whole}
use libblockdev.Zfs.Machine.Reads.{get_all, pool_get_properties-reads}
use libblockdev.Zfs.Reports.{PropertyInfo}
use libblockdev.Zfs.Ops.Pools.{pool_get_properties}
use libblockdev.Zfs.Machine.Safe.{EndsWell, step-EndsWell}
use libblockdev.Zfs.Machine.Sequences.{Logged, run-MadeBy, run-Sound}

-- Both tools are there, in version 2.1.5; programs that report succeed, those whose output is wanted fail.
abbrev tools : Tools
tools = record {
  find_program = λ name. true;
  capture_output = λ argv. ok (codes "zfs-2.1.5-1");
  regex = λ p s. no_match;
}

abbrev env : Env
env = record {
  tools = tools;
  commands = λ before. record {
    report_error = λ argv extra. ok tt;
    capture_output = λ argv extra. fail exec_failed (codes "no pools available to import");
  };
  exec_with_input = λ before argv input. ok tt;
  stat = λ name. none;
  real = whole;
}

abbrev start : World
start = record {
  plugin = record { avail = 3; cached = none; caps = no_caps; error = none; asked = 0 };
  calls = [];
}

abbrev attach : Op
attach = Op.pool_attach (some (codes "tank")) (some (codes "sda")) (some (codes "sdb"))

-- A vdev that would be taken for an option is refused, and nothing is run.
abbrev bad_attach : Op
bad_attach = Op.pool_attach (some (codes "tank")) (some (codes "sda")) (some (codes "-f"))

attach_runs :
    (step env (op attach) start).0.calls
    ≡ record {
      argv = slots_for 7 (
          codes "zpool"
          ∷ codes "attach"
          ∷ codes "--"
          ∷ codes "tank"
          ∷ codes "sda"
          ∷ codes "sdb"
          ∷ []);
      input = none;
    }
      ∷ []
unfolding step pool_attach ◌>>=◌ ◌>>◌ checked validate_name_not_option need_tools report
attach_runs = refl

bad_attach_refused :
    ((step env (op bad_attach) start).1 ≡ failed) × ((step env (op bad_attach) start).0.calls ≡ [])
unfolding step pool_attach ◌>>=◌ checked validate_name_not_option
bad_attach_refused = (refl, refl)

step-EndsWell_example : EndsWell attach [] (step env (op attach) start)
step-EndsWell_example = step-EndsWell env attach start

abbrev history : List Event
history = op bad_attach ∷ version ∷ op Op.pool_list_importable ∷ op attach ∷ closed ∷ []

run-MadeBy_example : Logged history [] (run env history start).calls
run-MadeBy_example = run-MadeBy env history start

run-Sound_example : Sound (run env history start)
run-Sound_example = run-Sound env history start (inl refl)

abbrev size : PropertyInfo
size = record { name = codes "size"; value = codes "1024"; source = codes "-" }

abbrev ashift : PropertyInfo
ashift = record { name = codes "ashift"; value = codes "12"; source = codes "local" }

-- `zpool get all` prints two properties.
abbrev get_env : Env
get_env = record env {
  commands = λ before. record {
    report_error = λ argv extra. ok tt;
    capture_output = λ argv extra. ok (codes "tank\tsize\t1024\t-\ntank\tashift\t12\tlocal\n");
  };
}

pool_get_properties-reads_example : pool_get_properties get_env (some (codes "tank")) start ≡ (
  log (record { argv = get_all get_env (codes "tank"); input = none }) start,
  some (size ∷ ashift ∷ []),
)
pool_get_properties-reads_example =
    pool_get_properties-reads get_env (codes "tank") start size (ashift ∷ []) (λ e. cc, refl)
      (ground arith) refl (ground arith) (ground arith) refl
