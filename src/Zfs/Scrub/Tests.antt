-- ===== src/Zfs/Scrub/Tests.antt =====
-- Concrete output of `zpool status` in src/plugins/zfs.c, with whole numbers in place of floating point.
use libblockdev.Base.{
  ℕ, ◌*◌, Option, none, some, [], ◌∷◌, Bytes, is_digit, if◌then◌else◌, codes, ◌≡◌, refl, ok,
}
use libblockdev.Base.Join.{join}
use libblockdev.Zfs.Reports.{strtoull}
use libblockdev.Zfs.Scrub.{Real, scanning, finished, no_scrub, parse_scrub, parse_size_suffix}

unfoldable past_digits : Bytes → Bytes
past_digits [] = []
past_digits (c ∷ s) = let rest = past_digits s in if is_digit c then rest else c ∷ s

unfoldable pub whole_strtod : Bytes → Option (ℕ × Bytes)
unfolding past_digits strtoull
whole_strtod [] = none
whole_strtod (c ∷ s) = if is_digit c then some (strtoull (c ∷ s), past_digits (c ∷ s)) else none

abbrev pub whole : Real
whole = record {
  Double = ℕ;
  strtod = whole_strtod;
  times = λ v n. v * n;
  to_u64 = λ v. v;
  of_nat = λ n. n;
}

abbrev output : Bytes
output = join b'\n' (
    codes "  pool: tank"
    ∷ codes "  scan: scrub in progress since Sun Jul 25"
    ∷ codes "\t3K scanned at 1K/s, 2K issued at 1K/s, 8K total"
    ∷ codes "\t0B repaired, 25% done, 00:10:00 to go"
    ∷ codes "errors: No known data errors"
    ∷ [])

a_size : parse_size_suffix whole (codes "3K") ≡ 3072
unfolding parse_size_suffix whole_strtod past_digits
a_size = refl

running :
    parse_scrub whole (codes "tank") output
    ≡ ok (record (no_scrub whole) {
      state = scanning;
      total_bytes = 8192;
      scanned_bytes = 3072;
      issued_bytes = 2048;
      percent_done = 25;
      start_time = some (codes "Sun Jul 25");
    })
unfolding parse_scrub whole_strtod past_digits
running = refl

done :
    parse_scrub whole (codes "tank") (codes " scan: scrub repaired 0B with 2 errors on Sun Jul 25")
    ≡ ok (record (no_scrub whole) {
      state = finished;
      percent_done = 100;
      errors = 2;
      end_time = some (codes "Sun Jul 25");
    })
unfolding parse_scrub whole_strtod past_digits
done = refl
