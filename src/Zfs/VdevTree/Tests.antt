-- ===== src/Zfs/VdevTree/Tests.antt =====
-- A concrete pool of one mirror of two disks, and one disk beside it.
use libblockdev.Base.{ℕ, none, List, [], ◌∷◌, Bytes, codes, ◌≡◌, refl, ok}
use libblockdev.Zfs.Reports.{online}
use libblockdev.Zfs.VdevTree.{Vdev, Tree, vdev_infer_type, build_tree, parse_vdevs}
use libblockdev.Zfs.VdevTree.Parents.{reference_tree, build_tree-nearest}
use libblockdev.Zfs.VdevTree.Depth.{FitsStack, build_tree-FitsStack}

abbrev status : Bytes
status =
    codes
      "  pool: tank\nconfig:\n\n\tNAME STATE READ WRITE CKSUM\n\ttank ONLINE 0 0 0\n\t  mirror-0 ONLINE 0 0 0\n\t    sda ONLINE 0 2 0\n\t    sdb ONLINE 0 0 0\n\t  sdc ONLINE 0 0 0\n\nerrors: none"

abbrev vdev : Bytes → ℕ → List ℕ → Vdev
vdev path write_errors children = record {
  path = path;
  type = vdev_infer_type (λ name. none) path;
  state = online;
  read_errors = 0;
  write_errors = write_errors;
  checksum_errors = 0;
  children = children;
}

abbrev pool : Tree
pool = record {
  nodes =
      vdev (codes "mirror-0") 0 (1 ∷ 2 ∷ [])
      ∷ vdev (codes "sda") 2 []
      ∷ vdev (codes "sdb") 0 []
      ∷ vdev (codes "sdc") 0 []
      ∷ [];
  top_vdevs = 0 ∷ 3 ∷ [];
  stack = (3, 3) ∷ [];
}

parsed_pool : parse_vdevs (λ name. none) (codes "tank") status ≡ ok pool
unfolding parse_vdevs vdev_infer_type
parsed_pool = refl

abbrev rows : List (ℕ × Vdev)
rows =
    (1, vdev (codes "tank") 0 [])
    ∷ (3, vdev (codes "mirror-0") 0 [])
    ∷ (5, vdev (codes "sda") 2 [])
    ∷ (5, vdev (codes "sdb") 0 [])
    ∷ (3, vdev (codes "sdc") 0 [])
    ∷ []

built : build_tree (codes "tank") rows ≡ ok pool
unfolding build_tree
built = refl

build_tree-nearest_example :
    (pool.nodes ≡ (reference_tree rows).nodes) × (pool.top_vdevs ≡ (reference_tree rows).top_vdevs)
build_tree-nearest_example = build_tree-nearest (codes "tank") rows built

build_tree-FitsStack_example : FitsStack pool
build_tree-FitsStack_example = build_tree-FitsStack (codes "tank") rows built
