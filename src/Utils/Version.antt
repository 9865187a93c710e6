-- ===== src/Utils/Version.antt =====
-- src/utils/exec.c (bd_utils_version_cmp, bd_utils_check_util_version). Finding a program in the
-- path, running it and matching a regular expression are arguments, the record `Tools`.
pub mod Order
pub mod Check
use mathlib.Core.Option
use libblockdev.Base.{
  ℕ, Option, none, some, List, [], ◌∷◌, ◌++◌, Bool, true, false, not, ◌&&◌, ◌||◌, Bytes, is_empty,
  is_digit, if◌then◌else◌, ◌==◌, ltb, Result, ok, err, GError, Code, exec_inval_ver, exec_noout,
  exec_failed, exec_util_unavailable, exec_util_unknown_ver, exec_util_low_ver, fail, ◌>>=◌, ◌>>◌,
  codes, strstrip, strsplit_set, strtoull_auto, map,
}

-- Where the pattern `^(\d+)(\.\d+)*(-\d)?$` stands.
pub data Place : Type 0 where
  want_number in_number want_digit after_digit behind : Place

place_step : Place → ℕ → Option Place
place_step want_number c = if is_digit c then some in_number else none
place_step in_number c =
    if is_digit c
    then some in_number
    else if c == b'.'
    then some want_number
    else if c == b'-'
    then some want_digit
    else if c == b'\n'
    then some behind
    else none
place_step want_digit c = if is_digit c then some after_digit else none
place_step after_digit c = if c == b'\n' then some behind else none
place_step behind c = none

accepting : Place → Bool
accepting in_number = true
accepting after_digit = true
accepting behind = true
accepting _ = false

match_from : Place → Bytes → Bool
match_from p [] = accepting p
match_from p (c ∷ s) = elim (place_step p c) [ none ↦ false | some q ↦ match_from q s ]

-- `g_regex_match` of that pattern; its `$` also matches before a newline that ends the text.
unfoldable pub is_version : Bytes → Bool
unfolding place_step accepting match_from
is_version s = match_from want_number s

abbrev pub is_separator : ℕ → Bool
is_separator c = c == b'.' || c == b'-'

-- The values that the loop compares.
unfoldable pub fields : Bytes → List ℕ
unfolding strsplit_set strtoull_auto
fields s = map strtoull_auto (strsplit_set is_separator s)

-- -1, 0 and 1.
pub data Cmp : Type 0 where
  lower same higher : Cmp

-- The loop, and the comparison of the lengths where it finds no difference.
unfoldable pub compare_fields : List ℕ → List ℕ → Cmp
compare_fields [] [] = same
compare_fields [] (y ∷ ys) = lower
compare_fields (x ∷ xs) [] = higher
compare_fields (x ∷ xs) (y ∷ ys) =
    let rest = compare_fields xs ys in if ltb x y then lower else if ltb y x then higher else rest

unfoldable pub version_cmp : Bytes → Bytes → Result Cmp
unfolding is_version fields compare_fields
version_cmp v1 v2 =
    if not (is_version v1)
    then fail exec_inval_ver (codes "Invalid or unsupported version (1) format: " ++ v1)
    else if not (is_version v2)
    then fail exec_inval_ver (codes "Invalid or unsupported version (2) format: " ++ v2)
    else ok (compare_fields (fields v1) (fields v2))

-- The outcome of compiling a pattern and matching it; a match has the text of the first group.
pub data RegexMatch : Type 0 where
  bad_pattern : GError → RegexMatch
  no_match : RegexMatch
  matched : Option Bytes → RegexMatch

pub record Tools : Type 0 where
  pub find_program : Bytes → Bool
  pub capture_output : List Bytes → Result Bytes
  pub regex : Bytes → Bytes → RegexMatch

pub record UtilDep : Type 0 where
  pub name : Bytes
  pub version : Option Bytes
  pub ver_arg : Option Bytes
  pub ver_regexp : Option Bytes

abbrev pub is_noout : Code → Bool
is_noout exec_noout = true
is_noout _ = false

abbrev pub is_exec_failed : Code → Bool
is_exec_failed exec_failed = true
is_exec_failed _ = false

-- The text to look for the version in: the standard output, or the message of the error where the
-- program ran; none if it did not run.
unfoldable pub version_output : Result Bytes → Option Bytes
version_output (ok out) = some out
version_output (err e) = if is_noout e.code || is_exec_failed e.code then some e.message else none

unknown_version : Bytes → Option Bytes → Result Bytes
unknown_version util none =
    fail exec_util_unknown_ver
      (codes "Failed to determine " ++ util ++ codes "'s version from: (null)")
unknown_version util (some out) =
    fail exec_util_unknown_ver
      (codes "Failed to determine " ++ util ++ codes "'s version from: " ++ out)

-- `!version_str || version_str == ""`
nonempty_version : Bytes → Option Bytes → Option Bytes → Result Bytes
unfolding unknown_version
nonempty_version util out none = unknown_version util out
nonempty_version util out (some v) = if is_empty v then unknown_version util out else ok v

-- A NULL text matches no pattern, but the pattern is compiled first.
matched_version : Bytes → Option Bytes → RegexMatch → Result Bytes
unfolding nonempty_version
matched_version util out (bad_pattern e) = err e
matched_version util out no_match = unknown_version util out
matched_version util none (matched g) = unknown_version util none
matched_version util (some text) (matched g) = nonempty_version util (some text) g

unfoldable pub detect_version : Tools → UtilDep → Result Bytes
unfolding version_output matched_version nonempty_version unknown_version
detect_version tools dep =
    let arg : Bytes = elim dep.ver_arg [ none ↦ codes "--version" | some a ↦ a ] in
    let out = version_output (tools.capture_output (dep.name ∷ arg ∷ [])) in
    elim dep.ver_regexp [
      | none ↦ nonempty_version dep.name out (Option.map strstrip out)
      | some re ↦
          matched_version dep.name out (tools.regex re (elim out [ none ↦ [] | some text ↦ text ]))
    ]

unfoldable pub judge_version : Bytes → Bytes → Bytes → Cmp → Result (Unit {0})
judge_version util found wanted lower = fail exec_util_low_ver (
    codes "Too low version of "
    ++ util
    ++ codes ": "
    ++ found
    ++ codes ". At least "
    ++ wanted
    ++ codes " required.")
judge_version util found wanted same = ok tt
judge_version util found wanted higher = ok tt

-- `bd_utils_version_cmp (version_str, version) < 0`: an error or a lower version.
unfoldable pub require_version : Bytes → Bytes → Bytes → Result (Unit {0})
unfolding version_cmp judge_version
require_version util found wanted = version_cmp found wanted >>= judge_version util found wanted

unfoldable pub check_util_version : Tools → UtilDep → Result (Unit {0})
unfolding detect_version require_version
check_util_version tools dep =
    if not (tools.find_program dep.name)
    then fail exec_util_unavailable
        (codes "The '" ++ dep.name ++ codes "' utility is not available")
    else elim dep.version [
      | none ↦ ok tt
      | some wanted ↦ detect_version tools dep >>= λ found. require_version dep.name found wanted
    ]
