-- ===== src/Base/Text.antt =====
-- Text of C: the bytes of a string without its closing NUL. A pointer that may be NULL is an
-- `Option`. The functions of the C library and of GLib that the sources call on text.
use Prim.Native.Nat.{◌-◌, ◌*◌, ℕ, zero, suc, ◌+◌, ◌/◌, ◌%◌}
use Prim.Native.Char.{code}
use Prim.Native.String.{String}
use mathlib.Core.Path.{◌≡◌, refl}
use mathlib.Core.Bool.{Bool, true, false, ◌&&◌, ◌||◌}
use mathlib.Core.List.{◌++◌, List, [], ◌∷◌, map}
use mathlib.Core.Option.{Option, none, some}
use native.Mathlib.Omega.{arith}
use libblockdev.Base.Logic.{ltb, leb, ◌==◌, if◌then◌else◌}

abbrev pub Bytes : Type 0
Bytes = List ℕ

-- The code points of a literal, which are its bytes when the text is ASCII.
abbrev pub codes : String → Bytes
codes String.[] = []
codes (String.◌∷◌ c s) = code c ∷ codes s

-- `g_strcmp0 (a, b) == 0` on two strings that are not NULL.
abbrev pub bytes_eq : Bytes → Bytes → Bool
bytes_eq [] [] = true
bytes_eq [] (b ∷ bs) = false
bytes_eq (a ∷ as') [] = false
bytes_eq (a ∷ as') (b ∷ bs) = a == b && bytes_eq as' bs

-- `g_strcmp0 (a, b) == 0` where the first may be NULL.
abbrev pub opt_eq : Option Bytes → Bytes → Bool
opt_eq none b = false
opt_eq (some a) b = bytes_eq a b

pub bytes_eq_refl : (a : Bytes) → bytes_eq a a ≡ true
bytes_eq_refl [] = refl
bytes_eq_refl (a ∷ as') = ground (arith, bytes_eq_refl as')

pub bytes_eq_sound : (a b : Bytes) → bytes_eq a b ≡ true → a ≡ b
bytes_eq_sound [] [] h = refl
bytes_eq_sound [] (b ∷ bs) h = cc
bytes_eq_sound (a ∷ as') [] h = cc
bytes_eq_sound (a ∷ as') (b ∷ bs) h = ground (arith, bytes_eq_sound as' bs)

abbrev pub is_empty : Bytes → Bool
is_empty [] = true
is_empty (c ∷ s) = false

-- `g_str_has_prefix (s, prefix)`
abbrev pub has_prefix : Bytes → Bytes → Bool
has_prefix s [] = true
has_prefix [] (p ∷ ps) = false
has_prefix (c ∷ s) (p ∷ ps) = c == p && has_prefix s ps

-- `g_ascii_isdigit`, `g_ascii_isalpha`, `g_ascii_isalnum`, `g_ascii_isspace`
abbrev pub is_digit : ℕ → Bool
is_digit c = leb b'0' c && leb c b'9'

abbrev pub is_alpha : ℕ → Bool
is_alpha c = (leb b'A' c && leb c b'Z') || (leb b'a' c && leb c b'z')

abbrev pub is_alnum : ℕ → Bool
is_alnum c = is_digit c || is_alpha c

-- the blanks of `g_ascii_isspace`: form feed, newline, return, tab, space (and vertical tab is none)
abbrev pub is_space : ℕ → Bool
is_space c = c == 12 || (c == 10 || (c == 13 || (c == 9 || c == 32)))

-- `g_ascii_tolower`
abbrev pub to_lower : ℕ → ℕ
to_lower c = if leb b'A' c && leb c b'Z' then c + 32 else c

-- `g_ascii_strcasecmp (a, b) == 0`
abbrev pub eq_nocase : Bytes → Bytes → Bool
eq_nocase a b = bytes_eq (map to_lower a) (map to_lower b)

-- `g_ascii_strncasecmp (s, p, strlen (p)) == 0`
abbrev pub has_prefix_nocase : Bytes → Bytes → Bool
has_prefix_nocase s p = has_prefix (map to_lower s) (map to_lower p)

-- What `%d` and `%u` print; one round for each digit, and `suc n` rounds are more than needed.
unfoldable pub decimal_loop : ℕ → ℕ → Bytes → Bytes
decimal_loop zero n out = out
decimal_loop (suc fuel) n out =
    let digit = b'0' + n % 10 in
    let more = decimal_loop fuel (n / 10) (digit ∷ out) in if ltb n 10 then digit ∷ out else more

unfoldable pub decimal : ℕ → Bytes
unfolding decimal_loop
decimal n = decimal_loop (suc n) n []

decimal_test : decimal 1048576 ≡ codes "1048576"
unfolding decimal
decimal_test = refl

-- `g_strstrip`: blanks off both ends.
abbrev pub chug : Bytes → Bytes
chug [] = []
chug (c ∷ s) = let rest = chug s in if is_space c then rest else c ∷ s

abbrev pub chomp : Bytes → Bytes
chomp [] = []
chomp (c ∷ s) = elim (chomp s) [ [] ↦ if is_space c then [] else c ∷ [] | d ∷ r ↦ c ∷ d ∷ r ]

abbrev pub strstrip : Bytes → Bytes
strstrip s = chomp (chug s)

-- `g_strsplit_set (s, set, 0)`; the set is a test of bytes. The empty text has no part.
module _ (sep : ℕ → Bool) where
  unfoldable pub split_parts : Bytes → Bytes → List Bytes
  split_parts [] part = part ∷ []
  split_parts (c ∷ s) part =
      let cut = part ∷ split_parts s [] in
      let longer = split_parts s (part ++ c ∷ []) in if sep c then cut else longer

  unfoldable pub strsplit_set : Bytes → List Bytes
  unfolding split_parts
  strsplit_set [] = []
  strsplit_set (c ∷ s) = split_parts (c ∷ s) []

abbrev pub max_u64 : ℕ
max_u64 = 18446744073709551615

-- The value of a digit in the bases up to 36; 36 for a byte that is none.
abbrev pub digit_value : ℕ → ℕ
digit_value c =
    if is_digit c
    then c - b'0'
    else if leb b'A' c && leb c b'Z'
    then c - b'A' + 10
    else if leb b'a' c && leb c b'z'
    then c - b'a' + 10
    else 36

-- The digits of `g_ascii_strtoull`: up to the first byte that is no digit; a value that does not fit
-- in 64 bits gives the greatest one.
unfoldable pub strtoull_digits : ℕ → ℕ → Bytes → ℕ
strtoull_digits base n [] = n
strtoull_digits base n (c ∷ s) =
    let m = n * base + digit_value c in
    let rest = strtoull_digits base m s in
    if leb base (digit_value c) then n else if ltb max_u64 m then max_u64 else rest

-- `g_ascii_strtoull (s, NULL, 0)` on a text with no blank and no sign: base 16 behind `0x`, base 8
-- behind `0`, base 10 otherwise.
unfoldable pub strtoull_auto : Bytes → ℕ
unfolding strtoull_digits
strtoull_auto [] = 0
strtoull_auto (c ∷ []) = strtoull_digits (if c == b'0' then 8 else 10) 0 (c ∷ [])
strtoull_auto (c ∷ (d ∷ s)) =
    if c == b'0'
    then (if d == b'x' || d == b'X'
        then strtoull_digits 16 0 s
        else strtoull_digits 8 0 (c ∷ d ∷ s))
    else strtoull_digits 10 0 (c ∷ d ∷ s)

-- `g_ascii_strtoull (s, NULL, 10)` on such a text.
unfoldable pub strtoull_10 : Bytes → ℕ
unfolding strtoull_digits
strtoull_10 s = strtoull_digits 10 0 s

-- `-n` in 64 bits; a value out of range stays the greatest one.
unfoldable pub negate_u64 : ℕ → ℕ
negate_u64 n = if n == 0 then 0 else if n == max_u64 then max_u64 else max_u64 - n

signed_auto : Bytes → ℕ
unfolding strtoull_auto negate_u64
signed_auto [] = 0
signed_auto (c ∷ s) =
    if c == b'-'
    then negate_u64 (strtoull_auto s)
    else if c == b'+'
    then strtoull_auto s
    else strtoull_auto (c ∷ s)

-- `g_ascii_strtoull (s, NULL, 0)`: blanks, a sign, digits.
unfoldable pub strtoull_0 : Bytes → ℕ
unfolding signed_auto
strtoull_0 [] = 0
strtoull_0 (c ∷ s) =
    let rest = strtoull_0 s in if is_space c || c == 11 then rest else signed_auto (c ∷ s)
