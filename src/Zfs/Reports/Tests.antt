-- ===== src/Zfs/Reports/Tests.antt =====
-- Concrete lines of the reports of `zfs list`.
use libblockdev.Base.{none, some, [], ◌∷◌, true, false, codes, ◌≡◌, refl, arith, map, decimal}
use libblockdev.Base.Join.{join}
use libblockdev.Zfs.Reports.{
  DatasetInfo, filesystem, volume, key_available, key_none, parse_all, parse_dataset_info_line,
  parse_snapshot_info_line,
}
use libblockdev.Zfs.Reports.RoundTrip.{dataset_columns, parse_all-datasets}

abbrev home : DatasetInfo
home = record {
  name = codes "tank/home";
  type = filesystem;
  mountpoint = some (codes "/home");
  origin = none;
  used = 4096;
  available = 10;
  referenced = 0;
  compression = codes "lz4";
  encryption = some (codes "aes-256-gcm");
  key_status = key_available;
  mounted = true;
}

abbrev disk_image : DatasetInfo
disk_image = record home {
  name = codes "tank/image";
  type = volume;
  mountpoint = none;
  origin = some (codes "tank/a@1");
  key_status = key_none;
  mounted = false;
}

parse_all-datasets_example :
    parse_all
      (parse_dataset_info_line true)
      (map (λ i. join b'\t' (dataset_columns (codes "aes-256-gcm") i)) (home ∷ disk_image ∷ []))
    ≡ home ∷ disk_image ∷ []
unfolding decimal
parse_all-datasets_example =
    parse_all-datasets (codes "aes-256-gcm") (home ∷ disk_image ∷ []) (ground arith)

-- A snapshot belongs to the dataset in front of the `@`.
snapshot_line :
    parse_snapshot_info_line (codes "tank/home@monday\t0\t4096\t1700000000")
    ≡ some (record {
      name = codes "tank/home@monday";
      dataset = codes "tank/home";
      used = 0;
      referenced = 4096;
      creation = codes "1700000000";
    })
unfolding parse_snapshot_info_line
snapshot_line = refl
