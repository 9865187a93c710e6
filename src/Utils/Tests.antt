-- ===== src/Utils/Tests.antt =====
-- Concrete runs of src/utils/exec.c.
use libblockdev.Base.{
  ℕ, none, some, List, [], ◌∷◌, ◌++◌, true, false, ◌≡◌, refl, inl, inr, Bytes, codes, ok, ◌↔◌,
}
use libblockdev.Utils.Args.{ExtraArg, append_extra_args, effective_argv, ArgBuffer}
use libblockdev.Utils.Lines.{Sink, Stream, FdEvent, eof, again, going, process_fd_event}
use libblockdev.Utils.Lines.Chunks.{
  process_events, process_events_lem, empty_stream, read_all, without_nul,
}
use libblockdev.Utils.Run.{
  Child, ready, interrupted, exited, started, progresses, finished, Outcome, join_space,
  exec_and_report_progress, exec_and_report_error, exec_and_capture_output,
}
use libblockdev.Utils.Run.Capture.{
  Ran, capture_spec, exec_and_capture_output_lem, exec_reports_once, last_words,
}
use libblockdev.Utils.Sync.{
  Spawn, exit_code, exec_and_report_error_no_progress, exec_and_report_error_agrees,
}
use libblockdev.Utils.Version.{
  version_cmp, lower, same, Tools, UtilDep, matched, detect_version, check_util_version,
}
use libblockdev.Utils.Version.Order.{AtMost}
use libblockdev.Utils.Version.Check.{check_util_version_iff}

-- Two options, one of them with an empty value.
abbrev extras : List ExtraArg
extras =
    record { opt = some (codes "-f"); val = some [] }
    ∷ record { opt = some (codes "-n"); val = some (codes "x") }
    ∷ []

abbrev extended : ArgBuffer
extended = record { allocated = 5; args = codes "mkfs" ∷ codes "-f" ∷ codes "-n" ∷ codes "x" ∷ [] }

extended_eq : append_extra_args (codes "mkfs" ∷ []) (some extras) ≡ some extended
unfolding append_extra_args
extended_eq = refl

-- A line in two pieces, and then the end of the pipe.
abbrev piece : Bytes → FdEvent
piece text = record { pollin = true; hangup = false; chunk = text; read_end = again }

abbrev end : FdEvent
end = record { pollin = true; hangup = true; chunk = []; read_end = eof }

abbrev silent : FdEvent
silent = record { pollin = false; hangup = false; chunk = []; read_end = again }

abbrev no_sink : Sink
no_sink = record { filtered = []; completion = 0; reports = [] }

process_events_example :
    (st : Stream) × (process_events none
        (piece (codes "he") ∷ piece (codes "llo") ∷ end ∷ [])
        empty_stream
        no_sink
      ≡ going (st, read_all none (codes "hello") no_sink))
    × (st.done ≡ true)
process_events_example =
    process_events_lem none no_sink (piece (codes "he") ∷ piece (codes "llo") ∷ []) end
      ((refl, λ _. refl), ((refl, λ _. refl), tt)) (inl (refl, refl))

-- A program that writes to both pipes, the output in two pieces.
abbrev child_of : ℕ → Child
child_of n = record {
  spawn_error = none;
  writes = [];
  polls =
      ready (piece (codes "he")) silent
      ∷ interrupted
      ∷ ready (piece (codes "llo")) (piece (codes "oops"))
      ∷ ready end end
      ∷ [];
  wait = exited n;
}

child-Ran : (n : ℕ) → Ran (child_of n) (codes "hello") (codes "oops")
child-Ran n = record {
  spawned = refl;
  polled = tt;
  out_feeds = inr (
    (refl, λ _. refl),
    (codes "llo", refl, inr ((refl, λ _. refl), ([], refl, inl (inl (refl, refl), refl)))),
  );
  err_feeds = inr (
    (refl, λ e. refl),
    (codes "oops", refl, inr ((refl, λ _. refl), ([], refl, inl (inl (refl, refl), refl)))),
  );
}

exec_and_capture_output_example :
    exec_and_capture_output (codes "lvs" ∷ []) none (child_of 5)
    ≡ some (capture_spec (without_nul (codes "hello")) (without_nul (codes "oops")) (exited 5))
exec_and_capture_output_example =
    exec_and_capture_output_lem (codes "lvs" ∷ []) none (child_of 5) (codes "hello") (codes "oops")
      (child-Ran 5)

abbrev reported : Outcome
reported = record {
  result = ok (codes "hello", codes "oops");
  proc_status = 0;
  reports = started (codes "Started 'lvs'") ∷ finished (codes "Completed") ∷ [];
}

reported_eq :
    exec_and_report_progress (codes "lvs" ∷ []) none none none 0 (child_of 0) ≡ some reported
unfolding exec_and_report_progress process_fd_event
reported_eq = refl

exec_reports_once_example :
    (ns : List ℕ) × (reported.reports
      ≡ started
          (codes "Started '" ++ join_space (effective_argv (codes "lvs" ∷ []) none) ++ codes "'")
        ∷ (progresses ns ++ finished (last_words reported.result) ∷ []))
exec_reports_once_example =
    exec_reports_once (codes "lvs" ∷ []) none none none 0 (child_of 0) refl reported_eq

abbrev spawn : Spawn
spawn argv = ok (record { output = codes "hello"; error_output = codes "oops"; end = exit_code 5 })

exec_and_report_error_agrees_example :
    exec_and_report_error (codes "lvs" ∷ []) none (child_of 5)
    ≡ some (exec_and_report_error_no_progress spawn (codes "lvs" ∷ []) none)
exec_and_report_error_agrees_example =
    exec_and_report_error_agrees spawn (codes "lvs" ∷ []) none (child_of 5) (codes "hello")
      (codes "oops") 5 (child-Ran 5) refl refl refl refl

-- The fields are compared as numbers, and the longer version is the higher one.
older : version_cmp (codes "1.2") (codes "1.10") ≡ ok lower
unfolding version_cmp
older = refl

newer : version_cmp (codes "1.10") (codes "1.10.1") ≡ ok lower
unfolding version_cmp
newer = refl

-- A field that begins with 0 is read as an octal number, up to the first digit that is none: 1.09 is
-- lower than 1.1, and 1.010 the same as 1.8.
octal :
    (version_cmp (codes "1.09") (codes "1.1") ≡ ok lower)
    × (version_cmp (codes "1.010") (codes "1.8") ≡ ok same)
unfolding version_cmp
octal = (refl, refl)

abbrev tools : Tools
tools = record {
  find_program = λ _. true;
  capture_output = λ _. ok (codes "LVM version: 2.03.11(2)");
  regex = λ _ _. matched (some (codes "2.3.11"));
}

abbrev lvm : UtilDep
lvm = record {
  name = codes "lvm";
  version = some (codes "2.2.116");
  ver_arg = some (codes "version");
  ver_regexp = some (codes "LVM version:\\s+([\\d\\.]+)");
}

lvm_passes : check_util_version tools lvm ≡ ok tt
unfolding check_util_version
lvm_passes = refl

check_util_version_iff_example : (check_util_version tools lvm ≡ ok tt) ↔ (
    (tools.find_program lvm.name ≡ true)
    × ((found : Bytes) × (detect_version tools lvm ≡ ok found)
        × AtMost (version_cmp (codes "2.2.116") found)))
check_util_version_iff_example = check_util_version_iff tools lvm (codes "2.2.116") refl

lower_request : version_cmp (codes "2.0") (codes "2.2.116") ≡ ok lower
unfolding version_cmp
lower_request = refl
