-- ===== src/Lvm/Ops/Tech.antt =====
-- src/plugins/lvm/lvm.c (bd_lvm_is_tech_avail): what each technology needs.
use libblockdev.Base.{ℕ, Bytes, if◌then◌else◌, ◌==◌, codes, Result, ok, fail, lvm_tech_unavail}
use libblockdev.Lvm.Ops.{Env, M, ◌>>◌, checked, need_tools, need_features, need_modules}

pub data Tech : Type 0 where
  basic basic_snap thin cache calcs thin_calcs cache_calcs glob_conf vdo writecache devices shared
        config :
      Tech
  vg_cfg_backup_restore : Tech

-- `mode & ~BD_LVM_TECH_MODE_QUERY`: anything but the bit 1 << 4.
abbrev only_query : ℕ → Bytes → Result (Unit {0})
only_query mode message =
    if mode == 0 then ok tt else if mode == 16 then ok tt else fail lvm_tech_unavail message

unfoldable pub is_tech_avail : Env → Tech → ℕ → M (Unit {0})
unfolding checked need_tools need_features need_modules
is_tech_avail env thin_calcs mode =
    checked (only_query mode (codes "Only 'query' supported for thin calculations"))
is_tech_avail env calcs mode =
    checked (only_query mode (codes "Only 'query' supported for calculations"))
is_tech_avail env vdo mode = do need_features env 1; need_modules env 1; need_tools env 1
is_tech_avail env writecache mode = do need_features env 2; need_tools env 1
is_tech_avail env devices mode = need_tools env 2
is_tech_avail env config mode = need_tools env 4
is_tech_avail env other mode = need_tools env 1
