-- ===== src/Utils/Commands.antt =====
-- The interface through which the plugins run programs: the two wrappers of src/utils/exec.c that they
-- call, `bd_utils_exec_and_report_error` and `bd_utils_exec_and_capture_output`, for a world in which
-- every program that is started ends.
use libblockdev.Base.{ℕ, Option, List, Bytes, Result}
use libblockdev.Utils.Args.{ExtraArg}

-- An array of the slots allocated, and what is written into it before the closing NULL.
pub record Argv : Type 0 where
  pub allocated : ℕ
  pub args : List Bytes

pub record Commands : Type 0 where
  pub report_error : List Bytes → Option (List ExtraArg) → Result (Unit {0})
  pub capture_output : List Bytes → Option (List ExtraArg) → Result Bytes
