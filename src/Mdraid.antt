-- ===== src/Mdraid.antt =====
-- src/plugins/mdraid.c: the size of the superblock, the array that creates a RAID, and the two forms of
-- a UUID. A buffer is the list of its bytes.
pub mod Superblock
pub mod Uuid
pub mod Create
pub mod Tests
use libblockdev.Base.{
  ℕ, zero, suc, ◌+◌, ◌-◌, ◌*◌, ◌/◌, ◌%◌, ◌^◌, Option, none, some, List, [], ◌∷◌, ◌++◌, Bool, true,
  false, not, ◌&&◌, ◌||◌, Bytes, is_digit, if◌then◌else◌, ◌==◌, ltb, leb, length, take, drop,
  opt_eq, Result, ok, err, fail, md_bad_format, codes, decimal,
}

abbrev pub mib : ℕ
mib = 1048576

-- `while (((headroom << 10) > member_size) && (headroom > min_headroom)) headroom >>= 1;`
unfoldable pub headroom_loop : ℕ → ℕ → ℕ → ℕ
headroom_loop zero member_size headroom = headroom
headroom_loop (suc fuel) member_size headroom =
    let rest = headroom_loop fuel member_size (headroom / 2) in
    if ltb member_size (headroom * 1024) && ltb mib headroom then rest else headroom

-- NULL, "1.1", "1.2" and "default".
abbrev pub new_layout : Option Bytes → Bool
new_layout none = true
new_layout (some v) =
    opt_eq (some v) (codes "1.1")
    || (opt_eq (some v) (codes "1.2") || opt_eq (some v) (codes "default"))

-- From 128 MiB to 1 MiB there are seven rounds.
unfoldable pub get_superblock_size : ℕ → Option Bytes → ℕ
unfolding headroom_loop
get_superblock_size member_size version =
    if new_layout version then headroom_loop 7 member_size (128 * mib) else 2 * mib

-- One place of the patterns: a hexadecimal digit in lower case, or a byte.
pub data Place : Type 0 where
  hex : Place
  byte : ℕ → Place

abbrev pub is_hex : ℕ → Bool
is_hex c = is_digit c || (leb b'a' c && leb c b'f')

abbrev pub fits : Place → ℕ → Bool
fits hex c = is_hex c
fits (byte b) c = c == b

-- The pattern at the beginning of the text.
unfoldable pub match_here : List Place → Bytes → Bool
match_here [] s = true
match_here (p ∷ ps) [] = false
match_here (p ∷ ps) (c ∷ s) = fits p c && match_here ps s

-- `g_regex_match`: the pattern anywhere in the text.
unfoldable pub match_any : List Place → Bytes → Bool
unfolding match_here
match_any ps [] = match_here ps []
match_any ps (c ∷ s) = match_here ps (c ∷ s) || match_any ps s

abbrev pub hex4 : List Place → List Place
hex4 ps = hex ∷ hex ∷ hex ∷ hex ∷ ps

abbrev pub md_pattern : List Place
md_pattern =
    hex4 (hex4 (byte b':' ∷ hex4 (hex4 (byte b':' ∷ hex4 (hex4 (byte b':' ∷ hex4 (hex4 [])))))))

abbrev pub canonical_pattern : List Place
canonical_pattern = hex4 (
    hex4
      (byte b'-' ∷ hex4 (byte b'-' ∷ hex4 (byte b'-' ∷ hex4 (byte b'-' ∷ hex4 (hex4 (hex4 [])))))))

-- `memcpy (dest, uuid + from, n)`, of the text with its NUL.
abbrev pub cells : ℕ → ℕ → Bytes → Bytes
cells from n mem = take n (drop from mem)

abbrev malformed : Bytes → Result Bytes
malformed uuid = fail md_bad_format (codes "malformed or invalid UUID: " ++ uuid)

-- The 37 bytes of the buffer that is returned.
unfoldable pub canonicalize_uuid : Bytes → Result Bytes
unfolding match_any
canonicalize_uuid uuid =
    let mem = uuid ++ 0 ∷ [] in
    if not (match_any md_pattern uuid)
    then malformed uuid
    else ok (
        cells 0 8 mem
        ++ (b'-'
            ∷ (cells 9 4 mem
                ++ (b'-'
                    ∷ (cells 13 4 mem
                        ++ (b'-'
                            ∷ (cells 18 4 mem ++ (b'-' ∷ (cells 22 4 mem ++ cells 27 9 mem)))))))))

-- The last of the 37 bytes is not written: the 0 of `g_new0`.
unfoldable pub get_md_uuid : Bytes → Result Bytes
unfolding match_any
get_md_uuid uuid =
    let mem = uuid ++ 0 ∷ [] in
    if not (match_any canonical_pattern uuid)
    then malformed uuid
    else ok (
        cells 0 8 mem
        ++ (b':'
            ∷ (cells 9 4 mem
                ++ (cells 14 4 mem
                    ++ (b':'
                        ∷ (cells 19 4 mem
                            ++ (cells 24 4 mem ++ (b':' ∷ (cells 28 9 mem ++ 0 ∷ [])))))))))

-- The slots that are allocated for the array of `bd_md_create`, and what is written before its NULL.
pub record CreateArgv : Type 0 where
  pub allocated : ℕ
  pub args : List Bytes

abbrev pub one_if : Bool → ℕ
one_if b = if b then 1 else 0

abbrev pub arg_if : Bool → Bytes → List Bytes
arg_if b a = if b then a ∷ [] else []

abbrev pub is_some : Option Bytes → Bool
is_some none = false
is_some (some a) = true

abbrev pub option_arg : Bytes → Option Bytes → List Bytes
option_arg name none = []
option_arg name (some value) = (name ++ value) ∷ []

-- The number of disks is 32 bits, and the difference is taken in 64 bits.
unfoldable pub create_argv :
    Bytes → Bytes → List Bytes → ℕ → Option Bytes → Option Bytes → ℕ → CreateArgv
unfolding decimal
create_argv device_name level disks spares version bitmap chunk_size = record {
  allocated =
      6
      + one_if (not (spares == 0))
      + one_if (is_some version)
      + one_if (is_some bitmap)
      + one_if (not (chunk_size == 0))
      + length disks
      + 1;
  args =
      codes "mdadm"
      ∷ codes "--create"
      ∷ device_name
      ∷ codes "--run"
      ∷ (codes "--level=" ++ level)
      ∷ (codes "--raid-devices=" ++ decimal ((length disks + 2 ^ 64 - spares) % 2 ^ 64))
      ∷ (arg_if (not (spares == 0)) (codes "--spare-devices=" ++ decimal spares)
          ++ (option_arg (codes "--metadata=") version
              ++ (option_arg (codes "--bitmap=") bitmap
                  ++ (arg_if (not (chunk_size == 0))
                        (codes "--chunk=" ++ decimal (chunk_size / 1024))
                      ++ disks))));
}
