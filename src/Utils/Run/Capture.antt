-- ===== src/Utils/Run/Capture.antt =====
-- What a caller gets of a program that ran.
use mathlib.Core.Option
use mathlib.Core.Option.{some-injective}
use libblockdev.Base.{
  ℕ, zero, suc, Option, none, some, List, [], ◌∷◌, ◌++◌, ◌≡◌, refl, ap, subst, ◌∙◌, arith, Bytes,
  is_empty, if◌then◌else◌, ltb, length, codes, decimal, Result, ok, err, GError, exec_failed,
  exec_noout, fail,
}
use libblockdev.Utils.Args.{ExtraArg, effective_argv}
use libblockdev.Utils.Lines.{ProgExtract}
use libblockdev.Utils.Lines.Chunks.{without_nul}
use libblockdev.Utils.Run.Loop.{poll_loop_lem}
use libblockdev.Utils.Run.Streams.{Feeds, NoFailure, outs, errs, pipes_of}
use libblockdev.Utils.Run.{
  Child, Wait, exited, signaled, other_status, no_child, wait_failed, started, finished, progresses,
  closing, Outcome, Pipes, conclude, after_wait, poll_loop, fresh_pipes, join_space, communicate,
  write_input, exec_and_report_progress, exec_and_capture_output, captured,
}

-- The program was started, and its outputs came through whole.
pub record Ran (child : Child) (out err_ : Bytes) : Type 0 where
  pub spawned : child.spawn_error ≡ none
  pub polled : NoFailure child.polls
  pub out_feeds : Feeds (outs child.polls) out
  pub err_feeds : Feeds (errs child.polls) err_

abbrev pub start_message : List Bytes → Option (List ExtraArg) → Bytes
start_message argv extra = codes "Started '" ++ join_space (effective_argv argv extra) ++ codes "'"

pub Ran-outcome :
    (argv : List Bytes) (extra : Option (List ExtraArg)) (child : Child) (out err_ : Bytes)
    → Ran child out err_
    → (p : Pipes) × (exec_and_report_progress argv extra none none 0 child
        ≡ some (conclude 0 (start_message argv extra) child.wait (p, none)))
      × (p.out_data ≡ without_nul out)
      × (p.err_data ≡ without_nul err_)
Ran-outcome argv extra child out err_ r =
    let (so, se, loop) = poll_loop_lem child.polls out err_ r.polled r.out_feeds r.err_feeds in
    (
      pipes_of so (without_nul out) se (without_nul err_),
      unfold exec_and_report_progress in
          rw (r.spawned, exec_and_report_progress)
            (ap (Option.map (conclude 0 (start_message argv extra) child.wait)) loop),
      refl,
      refl,
    )

-- The output of a program that ended well, unless it is empty.
abbrev pub output_or_error : Bytes → Bytes → Result Bytes
output_or_error [] err_ =
    fail exec_noout
      (codes "Process didn't provide any data on standard output. Error output: " ++ err_)
output_or_error (c ∷ out) err_ = ok (c ∷ out)

abbrev pub text_of_failure : Bytes → Bytes → Bytes
text_of_failure out [] = out
text_of_failure out (c ∷ err_) = c ∷ err_

-- What `bd_utils_exec_and_capture_output` is to return for the two outputs and the end of the
-- program.
abbrev pub capture_spec : Bytes → Bytes → Wait → Result Bytes
capture_spec out err_ (exited zero) = output_or_error out err_
capture_spec out err_ (exited (suc n)) = fail exec_failed (
    codes "Process reported exit code "
    ++ decimal (suc n)
    ++ codes ": "
    ++ text_of_failure out err_)
capture_spec out err_ (signaled n) = fail exec_failed (codes "Process killed with a signal")
capture_spec out err_ wait_failed = fail exec_failed (codes "Failed to wait for the process")
capture_spec out err_ other_status = output_or_error out err_
capture_spec out err_ no_child = output_or_error out err_

pub longer_text :
    (out err_ : Bytes) → (if ltb 0 (length err_) then err_ else out) ≡ text_of_failure out err_
longer_text out [] = refl
longer_text out (c ∷ err_) = ground arith

if_empty :
    (out err_ : Bytes)
    → (if is_empty out then output_or_error [] err_ else ok out) ≡ output_or_error out err_
if_empty [] err_ = refl
if_empty (c ∷ out) err_ = refl

captured_spec :
    (start : Bytes) (p : Pipes) (w : Wait)
    → captured (conclude 0 start w (p, none)) ≡ capture_spec p.out_data p.err_data w
unfolding captured conclude after_wait
captured_spec start p (exited zero) = if_empty p.out_data p.err_data
captured_spec start p (exited (suc n)) = rw (longer_text p.out_data p.err_data) refl
captured_spec start p (signaled n) = refl
captured_spec start p wait_failed = refl
captured_spec start p other_status = if_empty p.out_data p.err_data
captured_spec start p no_child = if_empty p.out_data p.err_data

-- For a program that was started and whose two outputs came through whole, in whatever pieces and
-- order, the call returns: the standard output without its NUL bytes, if the program ended with
-- exit code 0 and that output is not empty; the error NOOUT with the error output, if it is; and an
-- error if the program gave another exit code, with the error output, or the standard output where
-- that is empty, if a signal killed it, or if waiting for it failed.
pub exec_and_capture_output_lem :
    (argv : List Bytes) (extra : Option (List ExtraArg)) (child : Child) (out err_ : Bytes)
    → Ran child out err_
    → exec_and_capture_output argv extra child
      ≡ some (capture_spec (without_nul out) (without_nul err_) child.wait)
exec_and_capture_output_lem argv extra child out err_ r =
    let (p, e, eo, ee) = Ran-outcome argv extra child out err_ r in
    unfold exec_and_capture_output in
    rw e (ap some (captured_spec (start_message argv extra) p child.wait ∙ rw (eo, ee) refl))

-- How the last report closes a task: "Completed" after a success, the message of the error otherwise.
abbrev pub last_words : Result (Bytes × Bytes) → Bytes
last_words (ok r) = codes "Completed"
last_words (err e) = e.message

abbrev ClosedOnce : Bytes → Outcome → Type 0
ClosedOnce start o = (ns : List ℕ) × (o.reports ≡ closing start ns (last_words o.result))

conclude-ClosedOnce :
    (status : ℕ) (start : Bytes) (w : Wait) (r : Pipes × Option GError)
    → ClosedOnce start (conclude status start w r)
unfolding conclude after_wait
conclude-ClosedOnce status start w (p, some e) = (p.percents, refl)
conclude-ClosedOnce status start (signaled n) (p, none) = (p.percents, refl)
conclude-ClosedOnce status start (exited zero) (p, none) = (p.percents, refl)
conclude-ClosedOnce status start (exited (suc n)) (p, none) = (p.percents, refl)
conclude-ClosedOnce status start other_status (p, none) = (p.percents, refl)
conclude-ClosedOnce status start no_child (p, none) = (p.percents, refl)
conclude-ClosedOnce status start wait_failed (p, none) = (p.percents, refl)

run-ClosedOnce :
    (status : ℕ) (start : Bytes) (w : Wait) (m : Option (Pipes × Option GError)) {o : Outcome}
    → Option.map (conclude status start w) m ≡ some o
    → ClosedOnce start o
run-ClosedOnce status start w none h = cc
run-ClosedOnce status start w (some r) {o} h =
    subst (ClosedOnce start) (some-injective _ _ h) (conclude-ClosedOnce status start w r)

communicate-ClosedOnce :
    (extract : Option ProgExtract) (input : Option Bytes) (status : ℕ) (start : Bytes)
    (child : Child) {o : Outcome}
    → communicate extract input status start child ≡ some o
    → ClosedOnce start o
unfolding communicate
communicate-ClosedOnce extract none status start child h =
    run-ClosedOnce status start child.wait (poll_loop extract child.polls fresh_pipes) h
communicate-ClosedOnce extract (some text) status start child {o} h =
    go (write_input (length text) child.writes) h
  where
    go :
        (w : Option (Option Bytes))
        → (elim w [
          | none ↦ none
          | some none ↦
              Option.map
                (conclude status start child.wait)
                (poll_loop extract child.polls fresh_pipes)
          | some (some why) ↦ some (record {
            result = err (record {
              code = exec_failed;
              message = codes "Failed to write to stdin of the process: " ++ why;
            });
            proc_status = status;
            reports = closing start [] (codes "Failed to write to stdin of the process: " ++ why);
          })
        ])
          ≡ some o
        → ClosedOnce start o
    go none k = cc
    go (some none) k =
        run-ClosedOnce status start child.wait (poll_loop extract child.polls fresh_pipes) k
    go (some (some why)) k = subst (ClosedOnce start) (some-injective _ _ k) ([], refl)

-- Every run of a started program whose loops end reports exactly one start, then progress only, and
-- then exactly one end, whose message is "Completed" if the run succeeds and that of the error if not.
pub exec_reports_once :
    (argv : List Bytes) (extra : Option (List ExtraArg)) (extract : Option ProgExtract)
    (input : Option Bytes) (status : ℕ) (child : Child) {o : Outcome}
    → child.spawn_error ≡ none
    → exec_and_report_progress argv extra extract input status child ≡ some o
    → (ns : List ℕ) × (o.reports
        ≡ started (codes "Started '" ++ join_space (effective_argv argv extra) ++ codes "'")
          ∷ (progresses ns ++ finished (last_words o.result) ∷ []))
unfolding exec_and_report_progress
exec_reports_once argv extra extract input status child s h =
    communicate-ClosedOnce extract input status (start_message argv extra) child
      (rw (s, exec_and_report_progress) at h)
