-- ===== src/Zfs/Caps.antt =====
-- src/plugins/zfs.c: the questions about the version of the tools, the capabilities that are probed
-- once, and which technologies are available.
pub mod Questions
pub mod Probed
pub mod Late
use libblockdev.Base.{
  ℕ, ◌+◌, Option, none, some, List, [], ◌∷◌, ◌++◌, Bool, true, false, not, ◌&&◌, ◌||◌, Bytes,
  if◌then◌else◌, ◌==◌, ltb, leb, length, get_or, Result, ok, err, GError, Code, zfs_parse,
  zfs_tech_unavail, codes, decimal, ◌≡◌, refl, arith, ◌↔◌, fail,
}
use Prim.Native.Nat.{bit_and}
use libblockdev.Utils.Version.{Tools, UtilDep}
use libblockdev.Deps.{State, check_deps}
use libblockdev.Zfs.Version.{
  Plugin, Versions, Caps, no_caps, set_error, probe_version, scan_numbers,
}

-- The comparisons of the three numbers, in their order.
unfoldable pub newer_or_same : ℕ → ℕ → ℕ → List ℕ → Bool
newer_or_same major minor patch v =
    if ltb major (get_or v 0 0)
    then true
    else if ltb (get_or v 0 0) major
    then false
    else if ltb minor (get_or v 1 0)
    then true
    else if ltb (get_or v 1 0) minor
    then false
    else leb patch (get_or v 2 0)

too_old : Bytes → ℕ → ℕ → ℕ → Bytes
unfolding decimal
too_old version major minor patch =
    codes "Installed OpenZFS "
    ++ version
    ++ codes " is older than required "
    ++ decimal major
    ++ codes "."
    ++ decimal minor
    ++ codes "."
    ++ decimal patch

unfoldable pub judge_version : ℕ → ℕ → ℕ → Plugin × Option Bytes → Plugin × Bool
unfolding newer_or_same too_old scan_numbers set_error
judge_version major minor patch (s, none) = (s, false)
judge_version major minor patch (s, some version) =
    if ltb (length (scan_numbers 3 version)) 2
    then (
      set_error zfs_parse (codes "Failed to parse cached ZFS version '" ++ version ++ codes "'") s,
      false,
    )
    else if newer_or_same major minor patch (scan_numbers 3 version)
    then (s, true)
    else (set_error zfs_tech_unavail (too_old version major minor patch) s, false)

unfoldable pub version_at_least : Versions → ℕ → ℕ → ℕ → Plugin → Plugin × Bool
unfolding judge_version probe_version
version_at_least versions major minor patch s =
    judge_version major minor patch (probe_version versions s)

abbrev pub caps_of : Bool → Bool → Caps
caps_of bm v080 = record {
  probed = true;
  trim_supported = v080;
  scrub_pause_supported = v080;
  bookmark_supported = bm;
  encryption_supported = v080;
  initialize_supported = v080;
}

-- The errors of both questions are local and cleared.
unfoldable pub probe_runtime_caps : Versions → Plugin → Plugin
unfolding version_at_least
probe_runtime_caps versions s =
    let first = version_at_least versions 0 6 4 (record s { error = none }) in
    let second = version_at_least versions 0 8 0 (record (first.0) { error = none }) in
    if s.caps.probed
    then s
    else record (second.0) { error = s.error; caps = caps_of (first.1) (second.1) }

unfoldable pub ensure_cap : Bytes → Bool → Result (Unit {0})
ensure_cap op_name cap_value =
    if not cap_value
    then fail zfs_tech_unavail
        (op_name ++ codes " is not supported by the installed version of OpenZFS")
    else ok tt

unfoldable pub close : Plugin → Plugin
close s = record s { avail = 0; cached = none; caps = no_caps }

pub data Tech : Type 0 where
  pool vdev dataset snapshot encryption zvol maintenance : Tech
  unknown_tech : ℕ → Tech

abbrev pub zfs_deps : List UtilDep
zfs_deps =
    record { name = codes "zpool"; version = none; ver_arg = none; ver_regexp = none }
    ∷ record { name = codes "zfs"; version = none; ver_arg = none; ver_regexp = none }
    ∷ []

abbrev pub mode_modify : ℕ
mode_modify = 4

unfoldable pub tech_needs : Versions → Tech → ℕ → Plugin → Plugin × Bool
unfolding version_at_least set_error
tech_needs versions pool mode s = (s, true)
tech_needs versions vdev mode s = (s, true)
tech_needs versions dataset mode s = (s, true)
tech_needs versions snapshot mode s = (s, true)
tech_needs versions zvol mode s = (s, true)
tech_needs versions encryption mode s = version_at_least versions 0 8 0 s
tech_needs versions maintenance mode s =
    if not (bit_and mode mode_modify == 0) then version_at_least versions 0 8 0 s else (s, true)
tech_needs versions (unknown_tech n) mode s =
    (set_error zfs_tech_unavail (codes "Unknown/unsupported ZFS technology") s, false)

abbrev pub with_state : Plugin → State → Plugin
with_state s d = record s { avail = d.avail; error = d.error }

unfoldable pub is_tech_avail : Tools → Versions → Tech → ℕ → Plugin → Plugin × Bool
unfolding tech_needs check_deps
is_tech_avail tools versions tech mode s =
    let checked = check_deps tools 3 zfs_deps (record { avail = s.avail; error = s.error }) in
    if not (checked.1)
    then (with_state s (checked.0), false)
    else tech_needs versions tech mode (with_state s (checked.0))
