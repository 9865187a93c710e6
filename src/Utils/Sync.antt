-- ===== src/Utils/Sync.antt =====
-- src/utils/exec.c (bd_utils_exec_and_capture_output_no_progress,
-- bd_utils_exec_and_report_status_error, bd_utils_exec_and_report_error_no_progress): running a
-- program without progress reports, by `g_spawn_sync`, whose answer is an argument.
use libblockdev.Base.{
  ℕ, zero, suc, Option, none, some, List, [], ◌∷◌, not, ◌≡◌, refl, ap, ◌∙◌, Bytes, is_empty,
  if◌then◌else◌, ◌==◌, Result, ok, err, GError, exec_failed, fail, ◌>>=◌, suc==zero,
}
use libblockdev.Utils.Args.{ExtraArg, effective_argv}
use libblockdev.Utils.Lines.Chunks.{without_nul}
use libblockdev.Utils.Run.{Child, exited, exit_message, Pipes, conclude, exec_and_report_error}
use libblockdev.Utils.Run.Capture.{Ran, Ran-outcome, text_of_failure, longer_text, start_message}

-- How the program ended, as `g_spawn_check_wait_status` tells it: an exit code, or an abnormal end
-- with the error of GLib.
pub data SyncEnd : Type 0 where
  exit_code : ℕ → SyncEnd
  abnormal : GError → SyncEnd

pub record SyncRun : Type 0 where
  pub output : Bytes
  pub error_output : Bytes
  pub end : SyncEnd

pub record Captured : Type 0 where
  pub stdout_data : Bytes
  pub stderr_data : Bytes
  pub status : ℕ

-- `g_spawn_sync`
abbrev pub Spawn : Type 0
Spawn = List Bytes → Result SyncRun

end_status : SyncRun → SyncEnd → Result Captured
end_status r (exit_code n) =
    ok (record { stdout_data = r.output; stderr_data = r.error_output; status = n })
end_status r (abnormal e) = err e

unfoldable pub exec_and_capture_output_no_progress :
    Spawn → List Bytes → Option (List ExtraArg) → Result Captured
unfolding end_status
exec_and_capture_output_no_progress spawn argv extra =
    spawn (effective_argv argv extra) >>= λ r. end_status r r.end

unfoldable pub exec_and_report_status_error : Spawn → List Bytes → Option (List ExtraArg) → Result ℕ
unfolding exec_and_capture_output_no_progress exit_message
exec_and_report_status_error spawn argv extra =
    exec_and_capture_output_no_progress spawn argv extra >>= λ c.
    if not (c.status == 0)
    then (if not (is_empty c.stderr_data)
        then fail exec_failed (exit_message c.status c.stderr_data)
        else fail exec_failed (exit_message c.status c.stdout_data))
    else ok c.status

unfoldable pub exec_and_report_error_no_progress :
    Spawn → List Bytes → Option (List ExtraArg) → Result (Unit {0})
unfolding exec_and_report_status_error
exec_and_report_error_no_progress spawn argv extra =
    exec_and_report_status_error spawn argv extra >>= λ _. ok tt

status_result : ℕ → Bytes → Bytes → Result (Unit {0})
status_result zero out err_ = ok tt
status_result (suc n) out err_ = fail exec_failed (exit_message (suc n) (text_of_failure out err_))

sync_result :
    (spawn : Spawn) (argv : List Bytes) (extra : Option (List ExtraArg)) (out err_ : Bytes) (n : ℕ)
    → spawn (effective_argv argv extra)
      ≡ ok (record { output = out; error_output = err_; end = exit_code n })
    → exec_and_report_error_no_progress spawn argv extra ≡ status_result n out err_
unfolding exec_and_report_error_no_progress status_result
sync_result spawn argv extra out [] zero h = rw h refl
sync_result spawn argv extra out (c ∷ err_) zero h = rw h refl
sync_result spawn argv extra out [] (suc n) h = rw (h, suc==zero n) refl
sync_result spawn argv extra out (c ∷ err_) (suc n) h = rw (h, suc==zero n) refl

async_result :
    (start : Bytes) (p : Pipes) (n : ℕ)
    → ((conclude 0 start (exited n) (p, none)).result >>= λ _. ok tt)
      ≡ status_result n p.out_data p.err_data
unfolding conclude status_result
async_result start p zero = refl
async_result start p (suc n) = rw (longer_text p.out_data p.err_data) refl

-- The two ways to run a program agree. If both start it with the same command line, and it gives the
-- same two outputs, with no NUL byte in them, and the same exit code, then
-- `bd_utils_exec_and_report_error` returns what `bd_utils_exec_and_report_error_no_progress` returns,
-- with the same error message.
pub exec_and_report_error_agrees :
    (spawn : Spawn) (argv : List Bytes) (extra : Option (List ExtraArg)) (child : Child)
    (out err_ : Bytes) (n : ℕ)
    → Ran child out err_
    → child.wait ≡ exited n
    → without_nul out ≡ out
    → without_nul err_ ≡ err_
    → spawn (effective_argv argv extra)
      ≡ ok (record { output = out; error_output = err_; end = exit_code n })
    → exec_and_report_error argv extra child
      ≡ some (exec_and_report_error_no_progress spawn argv extra)
exec_and_report_error_agrees spawn argv extra child out err_ n r w clean_out clean_err h =
    let (p, e, eo, ee) = Ran-outcome argv extra child out err_ r in
    rw (sync_result spawn argv extra out err_ n h) (
      unfold exec_and_report_error in
      rw (e, w)
        (ap some (async_result (start_message argv extra) p n)
          ∙ rw (eo, ee, clean_out, clean_err) refl))
