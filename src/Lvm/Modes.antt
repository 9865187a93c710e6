-- ===== src/Lvm/Modes.antt =====
-- src/plugins/lvm/lvm-common.c and src/plugins/lvm/lvm.c: the names of the modes of caches and VDO pools, and
-- the data of a VDO pool.
pub mod RoundTrip
use libblockdev.Base.{
  ℕ, ◌%◌, ◌^◌, Option, none, some, Bytes, bytes_eq, opt_eq, Result, ok, err, fail, Bool, codes,
  decimal, ◌++◌, if◌then◌else◌, lvm_cache_inval, lvm_fail, lvm_vdo_policy_inval,
}
use libblockdev.Lvm.Table.{Table, lookup, number, is_text}

-- A value of an enumeration that is none of its names is `invalid`.
pub data CacheMode : Type 0 where
  unknown writethrough writeback : CacheMode
  invalid : ℕ → CacheMode

unfoldable pub cache_get_mode_str : CacheMode → Result Bytes
unfolding decimal
cache_get_mode_str CacheMode.writethrough = ok (codes "writethrough")
cache_get_mode_str CacheMode.writeback = ok (codes "writeback")
cache_get_mode_str CacheMode.unknown = ok (codes "unknown")
cache_get_mode_str (CacheMode.invalid n) =
    fail lvm_cache_inval (codes "Invalid mode given: " ++ decimal n)

-- The value and the error that is set; the value is `unknown` where there is an error.
unfoldable pub cache_get_mode_from_str : Bytes → Result CacheMode
cache_get_mode_from_str mode_str =
    if bytes_eq mode_str (codes "writethrough")
    then ok CacheMode.writethrough
    else if bytes_eq mode_str (codes "writeback")
    then ok CacheMode.writeback
    else if bytes_eq mode_str (codes "unknown")
    then ok CacheMode.unknown
    else fail lvm_cache_inval (codes "Invalid mode given: " ++ mode_str)

pub data OperatingMode : Type 0 where
  unknown recovering read_only normal : OperatingMode
  invalid : ℕ → OperatingMode

unfoldable pub get_vdo_operating_mode_str : OperatingMode → Result Bytes
get_vdo_operating_mode_str OperatingMode.recovering = ok (codes "recovering")
get_vdo_operating_mode_str OperatingMode.read_only = ok (codes "read-only")
get_vdo_operating_mode_str OperatingMode.normal = ok (codes "normal")
get_vdo_operating_mode_str OperatingMode.unknown = ok (codes "unknown")
get_vdo_operating_mode_str (OperatingMode.invalid n) =
    fail lvm_fail (codes "Invalid LVM VDO operating mode.")

pub data CompressionState : Type 0 where
  unknown online offline : CompressionState
  invalid : ℕ → CompressionState

unfoldable pub get_vdo_compression_state_str : CompressionState → Result Bytes
get_vdo_compression_state_str CompressionState.online = ok (codes "online")
get_vdo_compression_state_str CompressionState.offline = ok (codes "offline")
get_vdo_compression_state_str CompressionState.unknown = ok (codes "unknown")
get_vdo_compression_state_str (CompressionState.invalid n) =
    fail lvm_fail (codes "Invalid LVM VDO compression state.")

pub data IndexState : Type 0 where
  unknown error closed opening closing offline online : IndexState
  invalid : ℕ → IndexState

unfoldable pub get_vdo_index_state_str : IndexState → Result Bytes
get_vdo_index_state_str IndexState.error = ok (codes "error")
get_vdo_index_state_str IndexState.closed = ok (codes "closed")
get_vdo_index_state_str IndexState.opening = ok (codes "opening")
get_vdo_index_state_str IndexState.closing = ok (codes "closing")
get_vdo_index_state_str IndexState.offline = ok (codes "offline")
get_vdo_index_state_str IndexState.online = ok (codes "online")
get_vdo_index_state_str IndexState.unknown = ok (codes "unknown")
get_vdo_index_state_str (IndexState.invalid n) =
    fail lvm_fail (codes "Invalid LVM VDO index state.")

pub data WritePolicy : Type 0 where
  unknown auto sync async : WritePolicy
  invalid : ℕ → WritePolicy

unfoldable pub get_vdo_write_policy_str : WritePolicy → Result Bytes
get_vdo_write_policy_str WritePolicy.auto = ok (codes "auto")
get_vdo_write_policy_str WritePolicy.sync = ok (codes "sync")
get_vdo_write_policy_str WritePolicy.async = ok (codes "async")
get_vdo_write_policy_str WritePolicy.unknown = ok (codes "unknown")
get_vdo_write_policy_str (WritePolicy.invalid n) =
    fail lvm_fail (codes "Invalid LVM VDO write policy.")

unfoldable pub get_vdo_write_policy_from_str : Bytes → Result WritePolicy
get_vdo_write_policy_from_str policy_str =
    if bytes_eq policy_str (codes "auto")
    then ok WritePolicy.auto
    else if bytes_eq policy_str (codes "sync")
    then ok WritePolicy.sync
    else if bytes_eq policy_str (codes "async")
    then ok WritePolicy.async
    else fail lvm_vdo_policy_inval (codes "Invalid policy given: " ++ policy_str)

unfoldable pub operating_mode_of : Option Bytes → OperatingMode
operating_mode_of value =
    if opt_eq value (codes "recovering")
    then OperatingMode.recovering
    else if opt_eq value (codes "read-only")
    then OperatingMode.read_only
    else if opt_eq value (codes "normal")
    then OperatingMode.normal
    else OperatingMode.unknown

unfoldable pub compression_state_of : Option Bytes → CompressionState
compression_state_of value =
    if opt_eq value (codes "online")
    then CompressionState.online
    else if opt_eq value (codes "offline")
    then CompressionState.offline
    else CompressionState.unknown

unfoldable pub index_state_of : Option Bytes → IndexState
index_state_of value =
    if opt_eq value (codes "error")
    then IndexState.error
    else if opt_eq value (codes "closed")
    then IndexState.closed
    else if opt_eq value (codes "opening")
    then IndexState.opening
    else if opt_eq value (codes "closing")
    then IndexState.closing
    else if opt_eq value (codes "offline")
    then IndexState.offline
    else if opt_eq value (codes "online")
    then IndexState.online
    else IndexState.unknown

unfoldable pub write_policy_of : Option Bytes → WritePolicy
write_policy_of value =
    if opt_eq value (codes "auto")
    then WritePolicy.auto
    else if opt_eq value (codes "sync")
    then WritePolicy.sync
    else if opt_eq value (codes "async")
    then WritePolicy.async
    else WritePolicy.unknown

pub record VdoPoolData : Type 0 where
  pub operating_mode : OperatingMode
  pub compression_state : CompressionState
  pub index_state : IndexState
  pub write_policy : WritePolicy
  pub used_size : ℕ
  pub saving_percent : ℕ
  pub index_memory_size : ℕ
  pub deduplication : Bool
  pub compression : Bool

-- `saving_percent` is a signed integer of 32 bits, here as its bit pattern.
unfoldable pub get_vdo_data_from_table : Table → VdoPoolData
unfolding operating_mode_of compression_state_of index_state_of write_policy_of lookup number
    is_text
get_vdo_data_from_table table = record {
  operating_mode = operating_mode_of (lookup (codes "LVM2_VDO_OPERATING_MODE") table);
  compression_state = compression_state_of (lookup (codes "LVM2_VDO_COMPRESSION_STATE") table);
  index_state = index_state_of (lookup (codes "LVM2_VDO_INDEX_STATE") table);
  write_policy = write_policy_of (lookup (codes "LVM2_VDO_WRITE_POLICY") table);
  used_size = number (codes "LVM2_VDO_USED_SIZE") table;
  saving_percent = number (codes "LVM2_VDO_SAVING_PERCENT") table % 2 ^ 32;
  index_memory_size = number (codes "LVM2_VDO_INDEX_MEMORY_SIZE") table;
  deduplication = is_text (codes "LVM2_VDO_DEDUPLICATION") (codes "enabled") table;
  compression = is_text (codes "LVM2_VDO_COMPRESSION") (codes "enabled") table;
}
