-- ===== src/Zfs/Scrub.antt =====
-- src/plugins/zfs.c (bd_zfs_pool_scrub_status and its helpers): the status of a scrub out of the lines
-- of `zpool status`. Floating point is an argument.
pub mod Tests
use libblockdev.Base.{
  ℕ, ◌*◌, Option, none, some, List, [], ◌∷◌, ◌++◌, Bool, true, false, Bytes, is_empty, has_prefix,
  bytes_eq, strstrip, if◌then◌else◌, ◌==◌, zfs_parse, Result, ok, err, GError, fail, codes,
}
use mathlib.Core.Option
use libblockdev.Zfs.Reports.{strtoull, before, lines_of}
use libblockdev.Zfs.Importable.{skip}
use libblockdev.Zfs.VdevTree.{words}

-- `gdouble`: what g_ascii_strtod reads, with the rest of the text, or nothing; the product with a
-- constant, and the conversions.
pub record Real : Type 1 where
  pub Double : Type 0
  pub strtod : Bytes → Option (Double × Bytes)
  pub times : Double → ℕ → Double
  pub to_u64 : Double → ℕ
  pub of_nat : ℕ → Double

-- `strstr (s, needle)`: the text from the first place on where it stands.
unfoldable pub strstr : Bytes → Bytes → Option Bytes
strstr needle [] = if has_prefix [] needle then some [] else none
strstr needle (c ∷ s) =
    let rest = strstr needle s in if has_prefix (c ∷ s) needle then some (c ∷ s) else rest

abbrev pub is_there : {A : Type 0} → Option A → Bool
is_there none = false
is_there (some a) = true

abbrev pub has_text : Bytes → Bytes → Bool
has_text needle s = is_there (strstr needle s)

unfoldable pub parse_scan_timestamp : Bytes → Bytes → Option Bytes
unfolding strstr
parse_scan_timestamp line prefix = Option.map (skip prefix) (strstr prefix line)

unfoldable pub parse_scan_error_count : Bytes → ℕ
unfolding strstr strtoull
parse_scan_error_count line = elim (strstr (codes "with ") line) [
  | none ↦ 0
  | some rest ↦ strtoull (skip (codes "with ") rest)
]

pub data ScrubState : Type 0 where
  scrub_none scanning finished canceled paused : ScrubState

-- The factor of a suffix, where it has one.
unfoldable pub suffix_factor : Bytes → Option ℕ
suffix_factor [] = none
suffix_factor (c ∷ s) =
    if c == b'K'
    then some 1024
    else if c == b'M'
    then some (1024 * 1024)
    else if c == b'G'
    then some (1024 * 1024 * 1024)
    else if c == b'T'
    then some (1024 * 1024 * 1024 * 1024)
    else if c == b'P'
    then some (1024 * 1024 * 1024 * 1024 * 1024)
    else none

-- The first line that is as asked, and the lines behind it.
unfoldable pub first_line : (Bytes → Bool) → List Bytes → Option (Bytes × List Bytes)
first_line wanted [] = none
first_line wanted (l ∷ lines) =
    let rest = first_line wanted lines in if wanted l then some (l, lines) else rest

-- The token in front of the first that begins with a word, from the second token on.
unfoldable pub token_before : (Bytes → Bool) → List Bytes → Option Bytes
token_before wanted [] = none
token_before wanted (t ∷ []) = none
token_before wanted (t ∷ (u ∷ ts)) =
    let rest = token_before wanted (u ∷ ts) in if wanted u then some t else rest

-- The token with `done`, or the one in front of it up to its percent sign.
unfoldable pub percent_token : List Bytes → Option Bytes
unfolding strstr before
percent_token [] = none
percent_token (t ∷ []) = none
percent_token (t ∷ (u ∷ ts)) =
    let rest = percent_token (u ∷ ts) in
    if has_text (codes "done") u
    then some (if has_text (codes "%") u then u else before b'%' t)
    else rest

module _ (real : Real) where
  pub record ScrubInfo : Type 0 where
    pub state : ScrubState
    pub total_bytes : ℕ
    pub scanned_bytes : ℕ
    pub issued_bytes : ℕ
    pub errors : ℕ
    pub percent_done : real.Double
    pub start_time : Option Bytes
    pub end_time : Option Bytes

  abbrev scaled : real.Double → Option ℕ → real.Double
  scaled v none = v
  scaled v (some factor) = real.times v factor

  unfoldable pub parse_size_suffix : Bytes → ℕ
  unfolding suffix_factor
  parse_size_suffix s = if is_empty s then 0 else elim (real.strtod s) [
    | none ↦ 0
    | some (v, end) ↦ real.to_u64 (scaled v (suffix_factor end))
  ]

  -- `g_ascii_strtod (s, NULL)`
  unfoldable pub number : Bytes → real.Double
  number s = elim (real.strtod s) [ none ↦ real.of_nat 0 | some (v, end) ↦ v ]

  unfoldable pub size_before : Bytes → List Bytes → ℕ
  unfolding token_before parse_size_suffix
  size_before word tokens = elim (token_before (λ u. has_prefix u word) tokens) [
    | none ↦ 0
    | some t ↦ parse_size_suffix t
  ]

  percent_in : List Bytes → real.Double
  unfolding first_line percent_token number strstr words
  percent_in lines = elim (first_line (has_text (codes "done")) lines) [
    | none ↦ real.of_nat 0
    | some (l, _) ↦ elim (percent_token (words (strstrip l))) [
      | none ↦ real.of_nat 0
      | some t ↦ number t
    ]
  ]

  errors_in : List Bytes → ℕ
  unfolding first_line token_before strstr words strtoull
  errors_in lines = elim (first_line (has_text (codes "errors")) lines) [
    | none ↦ 0
    | some (l, _) ↦ elim (token_before (λ u. bytes_eq u (codes "errors")) (words (strstrip l))) [
      | none ↦ 0
      | some t ↦ strtoull t
    ]
  ]

  abbrev pub no_scrub : ScrubInfo
  no_scrub = record {
    state = scrub_none;
    total_bytes = 0;
    scanned_bytes = 0;
    issued_bytes = 0;
    errors = 0;
    percent_done = real.of_nat 0;
    start_time = none;
    end_time = none;
  }

  -- The line behind the scan line, and all the lines from there on; without any nothing is read.
  unfoldable pub parse_scan_progress : ScrubInfo → List Bytes → ScrubInfo
  unfolding size_before percent_in errors_in words
  parse_scan_progress info [] = info
  parse_scan_progress info (next ∷ lines) = record info {
    scanned_bytes = size_before (codes "scanned") (words (strstrip next));
    issued_bytes = size_before (codes "issued") (words (strstrip next));
    total_bytes = size_before (codes "total") (words (strstrip next));
    percent_done = percent_in (next ∷ lines);
    errors = errors_in (next ∷ lines);
  }

  unfoldable pub read_scan : Bytes → List Bytes → ScrubInfo
  unfolding parse_scan_progress parse_scan_timestamp parse_scan_error_count strstr
  read_scan scan lines =
      if has_text (codes "in progress") scan
      then parse_scan_progress
          (record no_scrub {
            state = scanning;
            start_time = parse_scan_timestamp scan (codes "since ");
          })
          lines
      else if has_text (codes "repaired") scan
      then record no_scrub {
        state = finished;
        percent_done = real.of_nat 100;
        end_time = parse_scan_timestamp scan (codes " on ");
        errors = parse_scan_error_count scan;
      }
      else if has_text (codes "canceled") scan
      then record no_scrub { state = canceled; end_time = parse_scan_timestamp scan (codes " on ") }
      else if has_text (codes "paused") scan
      then record no_scrub {
        state = paused;
        start_time = parse_scan_timestamp scan (codes "since ");
      }
      else no_scrub

  unfoldable pub parse_scrub : Bytes → Bytes → Result ScrubInfo
  unfolding first_line read_scan lines_of
  parse_scrub name output =
      elim (first_line (λ l. has_prefix (strstrip l) (codes "scan:")) (lines_of output)) [
        | none ↦ fail zfs_parse (codes "Failed to find scan status for pool '" ++ name ++ codes "'")
        | some (l, lines) ↦ ok (read_scan (strstrip l) lines)
      ]
