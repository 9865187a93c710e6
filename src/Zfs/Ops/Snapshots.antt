-- ===== src/Zfs/Ops/Snapshots.antt =====
-- src/plugins/zfs.c: the operations on snapshots, clones and bookmarks.
use libblockdev.Base.{
  ℕ, ◌+◌, Option, List, [], ◌∷◌, ◌++◌, Bool, Bytes, any, if◌then◌else◌, ◌==◌, length, codes,
}
use libblockdev.Utils.Args.{ExtraArg}
use libblockdev.Zfs.Pool.{check_name, count_extra_args, append_extra_args}
use libblockdev.Zfs.Reports.{
  SnapshotInfo, BookmarkInfo, before, lines_of, parse_all, parse_snapshot_info_line,
  parse_bookmark_line,
}
use libblockdev.Zfs.Ops.{
  Env, M, ◌>>=◌, ◌>>◌, pure, checked, need_tools, need_cap, report, capture, slots_for, flag,
  check_given, zfs_mask,
}
use libblockdev.Zfs.Ops.Datasets.{behind_dashes}

unfoldable pub snapshot_create : Env → Option Bytes → Bool → Option (List ExtraArg) → M (Unit {0})
unfolding check_name count_extra_args append_extra_args
snapshot_create env name recursive extra = do
  n ← checked (check_name name (codes "Snapshot name"))
  need_tools env zfs_mask
  report env (record {
    allocated = 4 + length (flag recursive (codes "-r")) + count_extra_args extra + 1;
    args =
        append_extra_args (codes "zfs" ∷ codes "snapshot" ∷ flag recursive (codes "-r")) extra
        ++ (codes "--" ∷ n ∷ []);
  })

unfoldable pub snapshot_destroy : Env → Option Bytes → Bool → M (Unit {0})
unfolding check_name
snapshot_destroy env name recursive = do
  n ← checked (check_name name (codes "Snapshot name"))
  need_tools env zfs_mask
  report env (
      slots_for 6
        (codes "zfs" ∷ codes "destroy" ∷ (flag recursive (codes "-r") ++ (codes "--" ∷ n ∷ []))))

unfoldable pub snapshot_list : Env → Option Bytes → Bool → M (List SnapshotInfo)
unfolding check_given parse_all parse_snapshot_info_line lines_of
snapshot_list env dataset recursive = do
  checked (check_given dataset (codes "Dataset"))
  need_tools env zfs_mask
  output ← capture env (record {
    allocated = 8 + length (flag recursive (codes "-r")) + length (behind_dashes dataset) + 1;
    args =
        codes "zfs"
        ∷ codes "list"
        ∷ codes "-H"
        ∷ codes "-p"
        ∷ codes "-t"
        ∷ codes "snapshot"
        ∷ (flag recursive (codes "-r")
            ++ (codes "-o" ∷ codes "name,used,refer,creation" ∷ behind_dashes dataset));
  })
  pure (parse_all parse_snapshot_info_line (lines_of output))

unfoldable pub snapshot_rollback : Env → Option Bytes → Bool → Bool → M (Unit {0})
unfolding check_name
snapshot_rollback env name force destroy_newer = do
  n ← checked (check_name name (codes "Snapshot name"))
  need_tools env zfs_mask
  report env (
      slots_for 7 (
        codes "zfs"
        ∷ codes "rollback"
        ∷ (flag force (codes "-f") ++ (flag destroy_newer (codes "-r") ++ (codes "--" ∷ n ∷ [])))))

-- `strchr (s, c) != NULL`
abbrev pub has_char : ℕ → Bytes → Bool
has_char c s = any (λ d. d == c) s

-- A clone without a `/` goes into the pool of the snapshot.
unfoldable pub effective_clone : Bytes → Bytes → Bytes
unfolding before
effective_clone snapshot clone_name =
    if has_char b'/' clone_name
    then clone_name
    else if has_char b'/' snapshot
    then before b'/' snapshot ++ (b'/' ∷ clone_name)
    else if has_char b'@' snapshot
    then before b'@' snapshot ++ (b'/' ∷ clone_name)
    else clone_name

unfoldable pub snapshot_clone :
    Env → Option Bytes → Option Bytes → Option (List ExtraArg) → M (Unit {0})
unfolding check_name effective_clone count_extra_args append_extra_args
snapshot_clone env snapshot clone_name extra = do
  s ← checked (check_name snapshot (codes "Snapshot name"))
  c ← checked (check_name clone_name (codes "Clone name"))
  need_tools env zfs_mask
  report env (record {
    allocated = 5 + count_extra_args extra + 1;
    args =
        append_extra_args (codes "zfs" ∷ codes "clone" ∷ []) extra
        ++ (codes "--" ∷ s ∷ effective_clone s c ∷ []);
  })

unfoldable pub bookmark_create : Env → Option Bytes → Option Bytes → M (Unit {0})
unfolding check_name
bookmark_create env snapshot bookmark = do
  s ← checked (check_name snapshot (codes "Snapshot name"))
  b ← checked (check_name bookmark (codes "Bookmark name"))
  need_tools env zfs_mask
  need_cap env (codes "Bookmarks") (λ c. c.bookmark_supported)
  report env (slots_for 6 (codes "zfs" ∷ codes "bookmark" ∷ codes "--" ∷ s ∷ b ∷ []))

unfoldable pub bookmark_destroy : Env → Option Bytes → M (Unit {0})
unfolding check_name
bookmark_destroy env name = do
  n ← checked (check_name name (codes "Bookmark name"))
  need_tools env zfs_mask
  need_cap env (codes "Bookmarks") (λ c. c.bookmark_supported)
  report env (slots_for 5 (codes "zfs" ∷ codes "destroy" ∷ codes "--" ∷ n ∷ []))

unfoldable pub bookmark_list : Env → Option Bytes → M (List BookmarkInfo)
unfolding check_given parse_all parse_bookmark_line lines_of
bookmark_list env dataset = do
  checked (check_given dataset (codes "Dataset"))
  need_tools env zfs_mask
  need_cap env (codes "Bookmarks") (λ c. c.bookmark_supported)
  output ← capture env (record {
    allocated = 8 + length (behind_dashes dataset) + 1;
    args =
        codes "zfs"
        ∷ codes "list"
        ∷ codes "-H"
        ∷ codes "-p"
        ∷ codes "-t"
        ∷ codes "bookmark"
        ∷ codes "-o"
        ∷ codes "name,creation"
        ∷ behind_dashes dataset;
  })
  pure (parse_all parse_bookmark_line (lines_of output))

unfoldable pub snapshot_promote : Env → Option Bytes → M (Unit {0})
unfolding check_name
snapshot_promote env clone_name = do
  c ← checked (check_name clone_name (codes "Clone name"))
  need_tools env zfs_mask
  report env (slots_for 5 (codes "zfs" ∷ codes "promote" ∷ codes "--" ∷ c ∷ []))

unfoldable pub snapshot_hold : Env → Option Bytes → Option Bytes → M (Unit {0})
unfolding check_name
snapshot_hold env snapshot tag = do
  s ← checked (check_name snapshot (codes "Snapshot name"))
  t ← checked (check_name tag (codes "Hold tag"))
  need_tools env zfs_mask
  report env (slots_for 6 (codes "zfs" ∷ codes "hold" ∷ codes "--" ∷ t ∷ s ∷ []))

unfoldable pub snapshot_release : Env → Option Bytes → Option Bytes → M (Unit {0})
unfolding check_name
snapshot_release env snapshot tag = do
  s ← checked (check_name snapshot (codes "Snapshot name"))
  t ← checked (check_name tag (codes "Hold tag"))
  need_tools env zfs_mask
  report env (slots_for 6 (codes "zfs" ∷ codes "release" ∷ codes "--" ∷ t ∷ s ∷ []))
