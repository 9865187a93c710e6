-- ===== src/Lvm/Config/Filter.antt =====
-- The devices filter is stored as one string and split when it is read.
use libblockdev.Base.{
  Option, none, some, List, [], ◌∷◌, ◌++◌, false, ◌≡◌, ◌≢◌, refl, subst, ap, Bytes, ◌==◌, ok,
  strsplit_set, All, is_empty,
}
use libblockdev.Base.Join.{Without, join, strsplit_set-join}
use libblockdev.Lvm.Config.{
  Globals, join_comma, set_devices_filter, get_devices_filter, set_global_config, get_global_config,
}

-- The text holds no comma.
abbrev pub NoComma : Bytes → Type 0
NoComma = Without b','

join_comma-join : (ds : List Bytes) → join_comma ds ≡ join b',' ds
unfolding join_comma
join_comma-join [] = refl
join_comma-join (d ∷ []) = refl
join_comma-join (d ∷ (b ∷ ds)) = ap (λ t. d ++ (b',' ∷ t)) (join_comma-join (b ∷ ds))

split_join :
    (d : Bytes) (ds : List Bytes)
    → All NoComma (d ∷ ds)
    → join_comma (d ∷ ds) ≢ []
    → strsplit_set (λ c. c == b',') (join_comma (d ∷ ds)) ≡ d ∷ ds
split_join d ds h ne = rw (join_comma-join (d ∷ ds)) (
    strsplit_set-join b',' d ds h refl
      (kept (join b',' (d ∷ ds)) (subst (λ t. t ≢ []) (join_comma-join (d ∷ ds)) ne)))
  where
    kept : (s : Bytes) → s ≢ [] → is_empty s ≡ false
    kept [] h = absurd (h refl)
    kept (c ∷ s) h = refl

-- A filter of at least one device, where no name holds a comma and their join is not empty, is read
-- back as it was set; the global configuration is not changed.
pub get-set_devices_filter :
    (d : Bytes) (ds : List Bytes) (g : Globals) {g' : Globals}
    → All NoComma (d ∷ ds)
    → join_comma (d ∷ ds) ≢ []
    → set_devices_filter (ok tt) (some (d ∷ ds)) g ≡ ok g'
    → (get_devices_filter g' ≡ some (d ∷ ds)) × (g'.config_str ≡ g.config_str)
unfolding set_devices_filter get_devices_filter
get-set_devices_filter d ds g {g'} h ne e =
    subst (λ x. (get_devices_filter x ≡ some (d ∷ ds)) × (x.config_str ≡ g.config_str))
      (stored g g' e) (ap some (split_join d ds h ne), refl)
  where
    stored :
        (a b : Globals)
        → ok (record a { devices_str = some (join_comma (d ∷ ds)) }) ≡ ok b
        → record a { devices_str = some (join_comma (d ∷ ds)) } ≡ b
    stored a b k = cc

-- Setting the global configuration makes it what is read, NULL and the empty string both resetting it,
-- and does not touch the devices filter.
pub get-set_global_config :
    (new_config : Option Bytes) (g : Globals)
    → (get_global_config (set_global_config new_config g)
        ≡ (elim new_config [ none ↦ [] | some c ↦ c ]))
      × ((set_global_config new_config g).devices_str ≡ g.devices_str)
unfolding get_global_config set_global_config
get-set_global_config none g = (refl, refl)
get-set_global_config (some []) g = (refl, refl)
get-set_global_config (some (c ∷ s)) g = (refl, refl)
