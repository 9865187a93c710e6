-- ===== src/Zfs/Machine/Reads.antt =====
-- The way of a report from the tool to the caller: the operation runs the tool, splits its output and
-- reads the lines.
use libblockdev.Base.{
  ℕ, none, some, List, [], ◌∷◌, ◌++◌, true, Bytes, ok, codes, ◌≡◌, refl, All, map,
}
use libblockdev.Base.Join.{Without, join, strsplit_set-join, join_not_empty}
use libblockdev.Deps.{has_all}
use libblockdev.Deps.Programs.{check_deps_idle}
use libblockdev.Zfs.Caps.{zfs_deps}
use libblockdev.Zfs.Names.{NotOption, validate_name_not_option}
use libblockdev.Zfs.Pool.{Argv, check_name}
use libblockdev.Zfs.Reports.{PropertyInfo, lines_of, parse_property_line}
use libblockdev.Zfs.Reports.RoundTrip.{
  IsProperty, print_property, parse_all-properties, parse_all-last, printed_not_empty,
}
use libblockdev.Zfs.Ops.{
  Env, World, ◌>>=◌, ◌>>◌, pure, checked, need_tools, capture, slots_for, log, both_masks,
}
use libblockdev.Zfs.Ops.Pools.{pool_get_properties}

check_name-ok : (n param : Bytes) → NotOption n → check_name (some n) param ≡ ok n
unfolding check_name validate_name_not_option
check_name-ok [] param h = absurd (h.0 refl)
check_name-ok (c ∷ s) param h = rw h.1 refl

-- With the tools known to be there, the check changes nothing.
tools_known :
    (env : Env) (mask : ℕ) (w : World)
    → has_all w.plugin.avail mask ≡ true
    → need_tools env mask w ≡ (w, some tt)
unfolding need_tools
tools_known env mask w h =
    rw
      (check_deps_idle env.tools mask zfs_deps
        (record { avail = w.plugin.avail; error = w.plugin.error }) h)
      refl

module _ (env : Env) (n : Bytes) where
  -- `zpool get -H -p all -- n`
  abbrev pub get_all : Argv
  get_all =
      slots_for 8
        (codes "zpool" ∷ codes "get" ∷ codes "-H" ∷ codes "-p" ∷ codes "all" ∷ codes "--" ∷ n ∷ [])

  abbrev pub get_all_output : List PropertyInfo → Bytes
  get_all_output is = join b'\n' (map (print_property n) is ++ ([] ∷ []))

  lines_of-output :
      (i : PropertyInfo) (is : List PropertyInfo)
      → All (Without b'\n') (map (print_property n) (i ∷ is) ++ ([] ∷ []))
      → lines_of (get_all_output (i ∷ is)) ≡ map (print_property n) (i ∷ is) ++ ([] ∷ [])
  unfolding lines_of
  lines_of-output i is h =
      strsplit_set-join b'\n' (print_property n i) (map (print_property n) is ++ ([] ∷ [])) h refl
        (join_not_empty b'\n' (print_property n i) _ (printed_not_empty n i))

  -- For a pool whose name is no option and holds no tab, with the tools known to be there, and a `zpool
  -- get all` that ends well and prints its properties, at least one, line by line, which hold no tabs and
  -- no newlines: the caller gets these properties, all and in order, and what was run is that command
  -- and nothing else.
  pub pool_get_properties-reads :
      (w : World) (i : PropertyInfo) (is : List PropertyInfo)
      → NotOption n
      → Without b'\t' n
      → has_all w.plugin.avail both_masks ≡ true
      → All IsProperty (i ∷ is)
      → All (Without b'\n') (map (print_property n) (i ∷ is) ++ ([] ∷ []))
      → (env.commands w.calls).capture_output get_all.args none ≡ ok (get_all_output (i ∷ is))
      → pool_get_properties env (some n) w
        ≡ (log (record { argv = get_all; input = none }) w, some (i ∷ is))
  unfolding pool_get_properties ◌>>=◌ ◌>>◌ checked capture pure
  pool_get_properties-reads w i is hn ht known props lines printed =
      rw
        (
          check_name-ok n (codes "Pool name") hn,
          tools_known env both_masks w known,
          printed,
          lines_of-output i is lines,
          parse_all-last parse_property_line (map (print_property n) (i ∷ is)),
          parse_all-properties n (i ∷ is) ht props,
        )
        refl
