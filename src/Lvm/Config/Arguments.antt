-- ===== src/Lvm/Config/Arguments.antt =====
-- The argument arrays of `lvmconfig`, up to the first NULL.
use libblockdev.Base.{
  Option, none, some, List, [], ◌∷◌, ◌++◌, Bool, true, false, ◌≡◌, refl, ap, append-nil, Bytes,
  if◌then◌else◌, codes,
}
use libblockdev.Utils.Args.{ExtraArg}
use libblockdev.Utils.Commands.{Commands}
use libblockdev.Lvm.Config.{
  Globals, config_arg, until_null, slot_of, slot_if, conf_spec, config_get_args, config_get,
}

abbrev pub as_list : Option Bytes → List Bytes
as_list none = []
as_list (some a) = a ∷ []

until_null-slot_of : (o : Option Bytes) → until_null (slot_of o) ≡ as_list o
unfolding until_null
until_null-slot_of none = refl
until_null-slot_of (some a) = refl

until_null-flags :
    (v c : Bool) (o : Option Bytes)
    → until_null (slot_if v (codes "--valuesonly") ++ (if c then slot_of o else []))
      ≡ (if v then codes "--valuesonly" ∷ [] else []) ++ (if c then as_list o else [])
unfolding until_null
until_null-flags true true o = ap (◌∷◌ (codes "--valuesonly")) (until_null-slot_of o)
until_null-flags false true o = until_null-slot_of o
until_null-flags true false o = refl
until_null-flags false false o = refl

abbrev front : Bytes → Bytes → List Bytes → List Bytes
front type spec rest = codes "lvmconfig" ∷ codes "--typeconfig" ∷ type ∷ spec ∷ rest

-- With a section, and with a setting or without, all arguments of `lvmconfig` reach the program: the
-- type, the specification, `--valuesonly` if it is asked for and the global configuration if it is
-- asked for and set.
config_get_args_section :
    (g : Globals) (section : Bytes) (setting : Option Bytes) (type : Bytes)
    (values_only global_config : Bool)
    → until_null (config_get_args g (some section) setting type values_only global_config)
      ≡ codes "lvmconfig"
        ∷ codes "--typeconfig"
        ∷ type
        ∷ (section ++ (elim setting as (λ _. Bytes) [ none ↦ [] | some s ↦ b'/' ∷ s ]))
        ∷ ((if values_only then codes "--valuesonly" ∷ [] else [])
            ++ (if global_config then as_list (config_arg g) else []))
unfolding until_null config_get_args conf_spec
config_get_args_section g section none type v c =
    rw (append-nil section) (ap (front type section) (until_null-flags v c (config_arg g)))
config_get_args_section g section (some s) type v c =
    ap (front type (section ++ b'/' ∷ s)) (until_null-flags v c (config_arg g))

-- Without a section the empty slot of the specification ends the array: neither `--valuesonly` nor the
-- global configuration has an effect on what is run or returned.
pub config_get_lost :
    (cmd : Commands) (g g' : Globals) (type : Bytes) (values_only global_config : Bool)
    (extra : Option (List ExtraArg))
    → config_get cmd g none none type values_only global_config extra
      ≡ config_get cmd g' none none type false false extra
unfolding until_null config_get_args config_get
config_get_lost cmd g g' type values_only global_config extra = refl
