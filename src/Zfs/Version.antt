-- ===== src/Zfs/Version.antt =====
-- src/plugins/zfs.c: the version of the tools, cached, and what depends on it. The state of the plugin
-- is a record; the locks make each access one step.
pub mod Text
use libblockdev.Base.{
  ℕ, zero, suc, ◌+◌, ◌%◌, ◌^◌, Option, none, some, List, [], ◌∷◌, ◌++◌, Bool, true, false, not,
  ◌&&◌, ◌||◌, Bytes, is_empty, is_digit, any, if◌then◌else◌, ◌==◌, ltb, leb, strstrip, strsplit_set,
  strtoull_10, Result, ok, err, GError, Code, zfs_parse, zfs_tech_unavail, codes, decimal,
}

-- `*p == '.' && g_ascii_isdigit (*(p + 1))`, at `c` and with the rest behind it.
unfoldable pub dot_digit : ℕ → Bytes → Bool
dot_digit c [] = false
dot_digit c (d ∷ s) = c == b'.' && is_digit d

-- The loop over digits and dots: what it passes.
unfoldable pub version_run : Bytes → Bytes
unfolding dot_digit
version_run [] = []
version_run (c ∷ s) =
    let rest = version_run s in if is_digit c || dot_digit c s then c ∷ rest else []

-- From the first digit on.
unfoldable pub from_digit : Bytes → Bytes
from_digit [] = []
from_digit (c ∷ s) = let rest = from_digit s in if is_digit c then c ∷ s else rest

unfoldable pub normalize_version : Bytes → Option Bytes
unfolding version_run from_digit
normalize_version raw =
    let result = version_run (from_digit raw) in
    if any (λ c. c == b'.') result then some result else none

-- The loop over the lines of the output.
unfoldable pub first_version : List Bytes → Option Bytes
unfolding normalize_version
first_version [] = none
first_version (line ∷ lines) =
    let rest = first_version lines in
    if is_empty (strstrip line)
    then rest
    else elim (normalize_version (strstrip line)) [ none ↦ rest | some v ↦ some v ]

-- `BDZFSRuntimeCaps`
pub record Caps : Type 0 where
  pub probed : Bool
  pub trim_supported : Bool
  pub scrub_pause_supported : Bool
  pub bookmark_supported : Bool
  pub encryption_supported : Bool
  pub initialize_supported : Bool

abbrev pub no_caps : Caps
no_caps = record {
  probed = false;
  trim_supported = false;
  scrub_pause_supported = false;
  bookmark_supported = false;
  encryption_supported = false;
  initialize_supported = false;
}

-- `avail_deps`, `cached_zfs_version`, `runtime_caps`, and `*error` of the caller; and how often
-- `zfs version` was run by the function that is being called.
pub record Plugin : Type 0 where
  pub avail : ℕ
  pub cached : Option Bytes
  pub caps : Caps
  pub error : Option GError
  pub asked : ℕ

-- What `bd_utils_exec_and_capture_output` gives for `zfs version`, by the number of such runs before it:
-- one may fail and the next succeed.
abbrev pub Versions : Type 0
Versions = ℕ → Result Bytes

-- The part of a call that sets the error: `g_set_error` only where none is set.
unfoldable pub set_error : Code → Bytes → Plugin → Plugin
set_error c m s = record s { error = some (record { code = c; message = m }) }

unfoldable pub keep_version : Option Bytes → Plugin → Plugin × Option Bytes
unfolding set_error
keep_version none s =
    (set_error zfs_parse (codes "Failed to parse ZFS version from 'zfs version' output") s, none)
keep_version (some v) s = (record s { cached = some v }, some v)

unfoldable pub run_version : Result Bytes → Plugin → Plugin × Option Bytes
unfolding first_version keep_version
run_version (err e) s = (record s { error = some e }, none)
run_version (ok output) s = keep_version (first_version (strsplit_set (λ c. c == b'\n') output)) s

unfoldable pub probe_version : Versions → Plugin → Plugin × Option Bytes
unfolding run_version
probe_version versions s = elim s.cached [
  | some v ↦ (s, some v)
  | none ↦ run_version (versions s.asked) (record s { asked = suc s.asked })
]

-- The three numbers of `sscanf (version, "%u.%u.%u", …)`; the version starts with a digit.
unfoldable pub leading_digits : Bytes → Bytes
leading_digits [] = []
leading_digits (c ∷ s) = let rest = leading_digits s in if is_digit c then c ∷ rest else []

unfoldable pub after_digits : Bytes → Bytes
after_digits [] = []
after_digits (c ∷ s) = let rest = after_digits s in if is_digit c then rest else c ∷ s

-- The numbers that are read from here on, at most `n` of them.
unfoldable pub scan_numbers : ℕ → Bytes → List ℕ
unfolding leading_digits after_digits strtoull_10
scan_numbers zero s = []
scan_numbers (suc n) s =
    let rest : List ℕ = elim (after_digits s) [
      | [] ↦ []
      | c ∷ t ↦ if c == b'.' then scan_numbers n t else []
    ] in
    if is_empty (leading_digits s) then [] else strtoull_10 (leading_digits s) % 2 ^ 32 ∷ rest
