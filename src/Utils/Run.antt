-- ===== src/Utils/Run.antt =====
-- src/utils/exec.c (_utils_exec_and_report_progress and the functions that wrap it, and
-- bd_utils_exec_and_capture_output_no_progress): running a program, reading its two pipes until
-- both are closed, and what its exit status is turned into. What the kernel answers (spawn, write,
-- poll and read, waitpid) is an argument: a `Child`.
pub mod Streams
pub mod Loop
pub mod Capture
use mathlib.Core.Option
use libblockdev.Base.{
  ℕ, zero, suc, ◌+◌, ◌-◌, Option, none, some, List, [], ◌∷◌, ◌++◌, Bool, true, false, not, ◌&&◌,
  ◌||◌, Bytes, is_empty, if◌then◌else◌, ◌==◌, ltb, length, Result, ok, err, GError, Code,
  exec_failed, exec_noout, spawn_failed, fail, ◌>>=◌, codes, decimal,
}
use libblockdev.Utils.Args.{ExtraArg, effective_argv, append_extra_args}
use libblockdev.Utils.Lines.{
  ProgExtract, Sink, Stream, FdEvent, Round, going, broken, process_fd_event,
}
use libblockdev.Utils.Lines
use libblockdev.Utils.Lines.Chunks.{empty_stream}

-- What one call of `poll` finds.
pub data Poll : Type 0 where
  interrupted : Poll
  poll_failed : Bytes → Poll
  ready : FdEvent → FdEvent → Poll

-- What one call of `write` on the program's input gives.
pub data Write : Type 0 where
  wrote : ℕ → Write
  write_failed : Bytes → Write

-- What `waitpid` gives: the exit code, the signal, another status; no such child, another error.
pub data Wait : Type 0 where
  exited signaled : ℕ → Wait
  other_status no_child wait_failed : Wait

pub record Child : Type 0 where
  pub spawn_error : Option GError
  pub writes : List Write
  pub polls : List Poll
  pub wait : Wait

-- The progress reports of one task.
pub data Report : Type 0 where
  started : Bytes → Report
  progress : ℕ → Report
  finished : Bytes → Report

-- What the caller gets: the two outputs or an error, the status, and the reports made.
pub record Outcome : Type 0 where
  pub result : Result (Bytes × Bytes)
  pub proc_status : ℕ
  pub reports : List Report

pub record Pipes : Type 0 where
  pub out : Stream
  pub out_data : Bytes
  pub err_ : Stream
  pub err_data : Bytes
  pub completion : ℕ
  pub percents : List ℕ

abbrev pub out_sink : Pipes → Sink
out_sink p = record { filtered = p.out_data; completion = p.completion; reports = p.percents }

abbrev pub err_sink : Pipes → Sink
err_sink p = record { filtered = p.err_data; completion = p.completion; reports = p.percents }

abbrev pub put_out : Pipes → Stream × Sink → Pipes
put_out p (st, s) = record p {
  out = st;
  out_data = s.filtered;
  completion = s.completion;
  percents = s.reports;
}

abbrev pub put_err : Pipes → Stream × Sink → Pipes
put_err p (st, s) = record p {
  err_ = st;
  err_data = s.filtered;
  completion = s.completion;
  percents = s.reports;
}

abbrev pub round_map : {A B : Type 0} → (A → B) → Round A → Round B
round_map f (going a) = going (f a)
round_map f (broken a e) = broken (f a) e

-- `if (!out_done) …`
unfoldable pub step_out : Option ProgExtract → FdEvent → Pipes → Round Pipes
step_out extract ev p =
    if p.out.done
    then going p
    else round_map (put_out p) (process_fd_event extract ev p.out (out_sink p))

-- `if (!err_done) …`
unfoldable pub step_err : Option ProgExtract → FdEvent → Pipes → Round Pipes
step_err extract ev p =
    if p.err_.done
    then going p
    else round_map (put_err p) (process_fd_event extract ev p.err_ (err_sink p))

-- One round of the loop, after `poll`; the reports made before a failure are kept.
unfoldable pub poll_round : Option ProgExtract → Poll → Pipes → Round Pipes
unfolding step_out step_err
poll_round extract interrupted p = going p
poll_round extract (poll_failed why) p =
    broken p (record { code = exec_failed; message = codes "Failed to poll output FDs: " ++ why })
poll_round extract (ready eo ee) p = Lines.◌>>=◌ (step_out extract eo p) (step_err extract ee)

abbrev pub both_done : Pipes → Bool
both_done p = p.out.done && p.err_.done

-- `while (! (out_done && err_done))`, over what the calls of `poll` find; `none` if these run out
-- before the pipes are closed, that is, if the program is still running.
unfoldable pub poll_loop : Option ProgExtract → List Poll → Pipes → Option (Pipes × Option GError)
unfolding poll_round
poll_loop extract [] p = if both_done p then some (p, none) else none
poll_loop extract (r ∷ rs) p =
    let go : Option (Pipes × Option GError) = elim (poll_round extract r p) [
      | going q ↦ poll_loop extract rs q
      | broken q e ↦ some (q, some e)
    ] in
    if both_done p then some (p, none) else go

-- The loop that writes the input: the error of a failed write; `none` while it is blocked.
unfoldable pub write_input : ℕ → List Write → Option (Option Bytes)
write_input zero ws = some none
write_input (suc n) [] = none
write_input (suc n) (wrote zero ∷ ws) = some none
write_input (suc n) (wrote (suc k) ∷ ws) = write_input (n - k) ws
write_input (suc n) (write_failed why ∷ ws) = some (some why)

unfoldable pub exit_message : ℕ → Bytes → Bytes
exit_message n text = codes "Process reported exit code " ++ decimal n ++ codes ": " ++ text

-- From the status of `waitpid` to the status and the error; the first argument is what the caller's
-- variable held.
unfoldable pub after_wait : ℕ → Bytes → Bytes → Wait → ℕ × Option GError
unfolding exit_message
after_wait status out err_data (signaled n) =
    (128 + n, some (record { code = exec_failed; message = codes "Process killed with a signal" }))
after_wait status out err_data (exited zero) = (0, none)
after_wait status out err_data (exited (suc n)) = (
  suc n,
  some (record {
    code = exec_failed;
    message = exit_message (suc n) (if ltb 0 (length err_data) then err_data else out);
  }),
)
after_wait status out err_data other_status = (0, none)
after_wait status out err_data no_child = (status, none)
after_wait status out err_data wait_failed =
    (status, some (record { code = exec_failed; message = codes "Failed to wait for the process" }))

abbrev pub progresses : List ℕ → List Report
progresses [] = []
progresses (n ∷ ns) = progress n ∷ progresses ns

abbrev pub closing : Bytes → List ℕ → Bytes → List Report
closing start ns last = started start ∷ (progresses ns ++ finished last ∷ [])

-- The end of the function: the outcome of the loop, then that of `waitpid`.
unfoldable pub conclude : ℕ → Bytes → Wait → Pipes × Option GError → Outcome
unfolding after_wait
conclude status start w (p, some e) = record {
  result = err e;
  proc_status = status;
  reports = closing start p.percents e.message;
}
conclude status start w (p, none) =
    let (status', failure) = after_wait status p.out_data p.err_data w in
    elim failure [
      | none ↦ record {
        result = ok (p.out_data, p.err_data);
        proc_status = status';
        reports = closing start p.percents (codes "Completed");
      }
      | some e ↦ record {
        result = err e;
        proc_status = status';
        reports = closing start p.percents e.message;
      }
    ]

abbrev pub fresh_pipes : Pipes
fresh_pipes = record {
  out = empty_stream;
  out_data = [];
  err_ = empty_stream;
  err_data = [];
  completion = 0;
  percents = [];
}

-- `g_strjoinv (" ", argv)`
pub join_space : List Bytes → Bytes
join_space [] = []
join_space (a ∷ []) = a
join_space (a ∷ (b ∷ rest)) = a ++ codes " " ++ join_space (b ∷ rest)

-- The part behind the spawn: the input first, then the two pipes.
unfoldable pub communicate : Option ProgExtract → Option Bytes → ℕ → Bytes → Child → Option Outcome
unfolding write_input poll_loop conclude
communicate extract input status start child =
    let run : Option Outcome =
      Option.map (conclude status start child.wait) (poll_loop extract child.polls fresh_pipes) in
    elim input [
      | none ↦ run
      | some text ↦ elim (write_input (length text) child.writes) [
        | none ↦ none
        | some none ↦ run
        | some (some why) ↦
            let message = codes "Failed to write to stdin of the process: " ++ why in
            some (record {
              result = err (record { code = exec_failed; message = message });
              proc_status = status;
              reports = closing start [] message;
            })
      ]
    ]

unfoldable pub exec_and_report_progress :
    List Bytes
    → Option (List ExtraArg)
    → Option ProgExtract
    → Option Bytes
    → ℕ
    → Child
    → Option Outcome
unfolding communicate join_space append_extra_args
exec_and_report_progress argv extra extract input status child =
    let start = codes "Started '" ++ join_space (effective_argv argv extra) ++ codes "'" in
    elim child.spawn_error [
      | some e ↦ some (record { result = err e; proc_status = status; reports = [] })
      | none ↦ communicate extract input status start child
    ]

-- `bd_utils_exec_and_report_error`: no extractor, no input, the status thrown away.
unfoldable pub exec_and_report_error :
    List Bytes → Option (List ExtraArg) → Child → Option (Result (Unit {0}))
unfolding exec_and_report_progress
exec_and_report_error argv extra child =
    Option.map (λ o. o.result >>= λ _. ok tt)
      (exec_and_report_progress argv extra none none 0 child)

-- `bd_utils_exec_with_input`
unfoldable pub exec_with_input :
    List Bytes → Option Bytes → Option (List ExtraArg) → Child → Option (Result (Unit {0}))
unfolding exec_and_report_progress
exec_with_input argv input extra child =
    Option.map (λ o. o.result >>= λ _. ok tt)
      (exec_and_report_progress argv extra none input 0 child)

-- The tests behind the call in `bd_utils_exec_and_capture_output`.
unfoldable pub captured : Outcome → Result Bytes
unfolding exit_message
captured o = o.result >>= λ (out, err_data).
    if not (o.proc_status == 0)
    then fail exec_failed (exit_message o.proc_status (out ++ err_data))
    else if is_empty out
    then fail exec_noout
        (codes "Process didn't provide any data on standard output. Error output: " ++ err_data)
    else ok out

unfoldable pub exec_and_capture_output :
    List Bytes → Option (List ExtraArg) → Child → Option (Result Bytes)
unfolding exec_and_report_progress captured
exec_and_capture_output argv extra child =
    Option.map captured (exec_and_report_progress argv extra none none 0 child)
