-- ===== src/Zfs/Importable/Tests.antt =====
-- Concrete output of `zpool import`.
use libblockdev.Base.{none, some, [], ◌∷◌, ◌++◌, codes, ◌≡◌, refl, arith}
use libblockdev.Base.Join.{join}
use libblockdev.Zfs.Importable.{parse_importable}
use libblockdev.Zfs.Importable.Blocks.{
  Block, blocks_lines, infos_of, parse_importable-blocks, parse_importable-lost_id, pool_line,
  state_line,
}

abbrev tank : Block
tank = record {
  name = codes "tank";
  id = codes "46276";
  state = codes "ONLINE";
  notes = codes " action: import it" ∷ [] ∷ [];
}

abbrev old : Block
old = record { name = codes "old pool"; id = codes "7"; state = codes "DEGRADED"; notes = [] }

parse_importable-blocks_example :
    parse_importable (join b'\n' (blocks_lines (tank ∷ old ∷ [])))
    ≡ some (infos_of (tank ∷ old ∷ []))
parse_importable-blocks_example =
    parse_importable-blocks tank (old ∷ []) (ground arith) (ground arith)

parse_importable-lost_id_example :
    parse_importable (
      join b'\n' (
        pool_line (codes "a")
        ∷ state_line (codes "ONLINE")
        ∷ ([] ++ (pool_line (codes "b") ∷ state_line (codes "ONLINE") ∷ []))))
    ≡ none
parse_importable-lost_id_example =
    parse_importable-lost_id (codes "a") (codes "ONLINE") (codes "b") (codes "ONLINE") [] []
      (refl, refl, refl) (refl, refl, refl) (refl, refl, refl) (refl, refl, refl) tt (ground arith)
