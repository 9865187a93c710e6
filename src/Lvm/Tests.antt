-- ===== src/Lvm/Tests.antt =====
-- Concrete runs of src/plugins/lvm/lvm-common.c.
use libblockdev.Base.{
  ℕ, ◌+◌, ◌*◌, ◌/◌, ◌^◌, ◌≤◌, none, some, [], ◌∷◌, Bool, true, false, ◌≡◌, refl, arith, codes, ok,
  fail, lvm_fail, all, All, ◌≢◌,
}
use libblockdev.Utils.Commands.{Commands}
use libblockdev.Lvm.Calc.{
  resolve_pe_size, round_size_to_pe, is_supported_pe_size, get_supported_pe_sizes,
  get_thpool_meta_size, min_thpool_md_size,
}
use libblockdev.Lvm.Calc.Rounding.{IsRounded, round_size_to_pe-IsRounded}
use libblockdev.Lvm.Calc.ThinPool.{get_thpool_meta_size_wraps}
use libblockdev.Lvm.Config.{Globals, set_devices_filter, get_devices_filter, config_get, join_comma}
use libblockdev.Lvm.Config.Filter.{NoComma, get-set_devices_filter}
use libblockdev.Lvm.Config.Arguments.{config_get_lost}

-- All the sizes that are offered are supported.
all_supported : all is_supported_pe_size get_supported_pe_sizes ≡ true
unfolding is_supported_pe_size get_supported_pe_sizes
all_supported = refl

round_size_to_pe_example :
    IsRounded 10000000 (resolve_pe_size 0) true (round_size_to_pe 10000000 0 true)
round_size_to_pe_example = round_size_to_pe-IsRounded 10000000 0 true (omega arith)

small_enough : 10000000 + resolve_pe_size 4194304 ≤ 18446744073709551615
unfolding resolve_pe_size
small_enough = omega arith

-- The limit of the device mapper is 15.81 GiB.
abbrev max_md : ℕ
max_md = 16978542592

limits : min_thpool_md_size ≤ max_md
limits = omega arith

get_thpool_meta_size_wraps_example :
    get_thpool_meta_size max_md (3 * 2 ^ 58) 65536 ≡ min_thpool_md_size
get_thpool_meta_size_wraps_example = get_thpool_meta_size_wraps max_md 3 65536 limits

-- A fifth of the size, and the size of a pool of which it is a fifth.
abbrev scaled : Bool → ℕ → ℕ
scaled true size = size / 6
scaled false size = size / 5

abbrev globals : Globals
globals = record { config_str = some (codes "devices{}"); devices_str = none }

abbrev filtered : Globals
filtered = record {
  config_str = some (codes "devices{}");
  devices_str = some (codes "/dev/sda,/dev/sdb");
}

filtered_eq :
    set_devices_filter (ok tt) (some (codes "/dev/sda" ∷ codes "/dev/sdb" ∷ [])) globals
    ≡ ok filtered
unfolding set_devices_filter
filtered_eq = refl

no_commas : All NoComma (codes "/dev/sda" ∷ codes "/dev/sdb" ∷ [])
no_commas = (
  (refl, (refl, (refl, (refl, (refl, (refl, (refl, (refl, tt)))))))),
  ((refl, (refl, (refl, (refl, (refl, (refl, (refl, (refl, tt)))))))), tt),
)

nonempty : join_comma (codes "/dev/sda" ∷ codes "/dev/sdb" ∷ []) ≢ []
unfolding join_comma
nonempty e = cc

get-set_devices_filter_example :
    (get_devices_filter filtered ≡ some (codes "/dev/sda" ∷ codes "/dev/sdb" ∷ []))
    × (filtered.config_str ≡ globals.config_str)
get-set_devices_filter_example =
    get-set_devices_filter (codes "/dev/sda") (codes "/dev/sdb" ∷ []) globals no_commas nonempty
      filtered_eq

abbrev commands : Commands
commands = record {
  report_error = λ _ _. ok tt;
  capture_output = λ argv _. elim argv [ [] ↦ fail lvm_fail [] | a ∷ rest ↦ ok a ];
}

config_get_lost_example :
    config_get commands globals none none (codes "full") true true none
    ≡ config_get commands filtered none none (codes "full") false false none
config_get_lost_example = config_get_lost commands globals filtered (codes "full") true true none
