-- ===== src/Lvm/Modes/RoundTrip.antt =====
-- src/plugins/lvm/lvm-common.c and src/plugins/lvm/lvm.c: the names of the modes are read back.
use libblockdev.Base.{
  some, Bytes, ok, fail, Result, codes, ◌++◌, ◌≡◌, refl, sym, subst, lvm_vdo_policy_inval,
}
use libblockdev.Lvm.Modes.{
  CacheMode, cache_get_mode_str, cache_get_mode_from_str, OperatingMode, get_vdo_operating_mode_str,
  operating_mode_of, CompressionState, get_vdo_compression_state_str, compression_state_of,
  IndexState, get_vdo_index_state_str, index_state_of, WritePolicy, get_vdo_write_policy_str,
  write_policy_of, get_vdo_write_policy_from_str,
}

-- The name that a mode has is the name that it is given.
same {ℓ} :
    {T : Type ℓ} (read : Bytes → T) {known name : Bytes}
    → ok known ≡ ok name
    → read name ≡ read known
same read h = cc

cache_mode_back :
    (mode : CacheMode) (name : Bytes)
    → cache_get_mode_str mode ≡ ok name
    → cache_get_mode_from_str name ≡ ok mode
unfolding cache_get_mode_str cache_get_mode_from_str
cache_mode_back CacheMode.unknown name h = same cache_get_mode_from_str h
cache_mode_back CacheMode.writethrough name h = same cache_get_mode_from_str h
cache_mode_back CacheMode.writeback name h = same cache_get_mode_from_str h
cache_mode_back (CacheMode.invalid n) name h = cc

operating_mode_back :
    (mode : OperatingMode) (name : Bytes)
    → get_vdo_operating_mode_str mode ≡ ok name
    → operating_mode_of (some name) ≡ mode
unfolding get_vdo_operating_mode_str operating_mode_of
operating_mode_back OperatingMode.unknown name h = same (λ n. operating_mode_of (some n)) h
operating_mode_back OperatingMode.recovering name h = same (λ n. operating_mode_of (some n)) h
operating_mode_back OperatingMode.read_only name h = same (λ n. operating_mode_of (some n)) h
operating_mode_back OperatingMode.normal name h = same (λ n. operating_mode_of (some n)) h
operating_mode_back (OperatingMode.invalid n) name h = cc

compression_state_back :
    (state : CompressionState) (name : Bytes)
    → get_vdo_compression_state_str state ≡ ok name
    → compression_state_of (some name) ≡ state
unfolding get_vdo_compression_state_str compression_state_of
compression_state_back CompressionState.unknown name h = same (λ n. compression_state_of (some n)) h
compression_state_back CompressionState.online name h = same (λ n. compression_state_of (some n)) h
compression_state_back CompressionState.offline name h = same (λ n. compression_state_of (some n)) h
compression_state_back (CompressionState.invalid n) name h = cc

index_state_back :
    (state : IndexState) (name : Bytes)
    → get_vdo_index_state_str state ≡ ok name
    → index_state_of (some name) ≡ state
unfolding get_vdo_index_state_str index_state_of
index_state_back IndexState.unknown name h = same (λ n. index_state_of (some n)) h
index_state_back IndexState.error name h = same (λ n. index_state_of (some n)) h
index_state_back IndexState.closed name h = same (λ n. index_state_of (some n)) h
index_state_back IndexState.opening name h = same (λ n. index_state_of (some n)) h
index_state_back IndexState.closing name h = same (λ n. index_state_of (some n)) h
index_state_back IndexState.offline name h = same (λ n. index_state_of (some n)) h
index_state_back IndexState.online name h = same (λ n. index_state_of (some n)) h
index_state_back (IndexState.invalid n) name h = cc

write_policy_back :
    (policy : WritePolicy) (name : Bytes)
    → get_vdo_write_policy_str policy ≡ ok name
    → write_policy_of (some name) ≡ policy
unfolding get_vdo_write_policy_str write_policy_of
write_policy_back WritePolicy.unknown name h = same (λ n. write_policy_of (some n)) h
write_policy_back WritePolicy.auto name h = same (λ n. write_policy_of (some n)) h
write_policy_back WritePolicy.sync name h = same (λ n. write_policy_of (some n)) h
write_policy_back WritePolicy.async name h = same (λ n. write_policy_of (some n)) h
write_policy_back (WritePolicy.invalid n) name h = cc

-- What `bd_lvm_get_vdo_write_policy_from_str` makes of the name of a policy: `unknown` is the name of
-- one, but no policy that can be asked for.
abbrev pub policy_for : WritePolicy → Bytes → Result WritePolicy
policy_for WritePolicy.unknown name =
    fail lvm_vdo_policy_inval (codes "Invalid policy given: " ++ name)
policy_for policy name = ok policy

policy_from_back :
    (policy : WritePolicy) (name : Bytes)
    → get_vdo_write_policy_str policy ≡ ok name
    → get_vdo_write_policy_from_str name ≡ policy_for policy name
unfolding get_vdo_write_policy_str get_vdo_write_policy_from_str
policy_from_back WritePolicy.unknown name h =
    subst (λ n. get_vdo_write_policy_from_str n ≡ policy_for WritePolicy.unknown n)
      (sym (same (λ n. n) h)) refl
policy_from_back WritePolicy.auto name h = same get_vdo_write_policy_from_str h
policy_from_back WritePolicy.sync name h = same get_vdo_write_policy_from_str h
policy_from_back WritePolicy.async name h = same get_vdo_write_policy_from_str h
policy_from_back (WritePolicy.invalid n) name h = cc

-- A mode of each enumeration.
pub record Names : Type 0 where
  pub cache : CacheMode
  pub operating : OperatingMode
  pub compression : CompressionState
  pub index : IndexState
  pub policy : WritePolicy

-- Whatever names the mode of a cache and the modes, states and policy of a VDO pool have: the function
-- for the name of a cache mode, and what reads the report about a VDO pool, give each back. So does the
-- function for the name of a write policy, but for `unknown`, the name of the policy that is not known,
-- which it refuses.
pub names_read_back :
    (m : Names) (n1 n2 n3 n4 n5 : Bytes)
    → cache_get_mode_str m.cache ≡ ok n1
    → get_vdo_operating_mode_str m.operating ≡ ok n2
    → get_vdo_compression_state_str m.compression ≡ ok n3
    → get_vdo_index_state_str m.index ≡ ok n4
    → get_vdo_write_policy_str m.policy ≡ ok n5
    → (cache_get_mode_from_str n1 ≡ ok m.cache)
      × (operating_mode_of (some n2) ≡ m.operating)
      × (compression_state_of (some n3) ≡ m.compression)
      × (index_state_of (some n4) ≡ m.index)
      × (write_policy_of (some n5) ≡ m.policy)
      × (get_vdo_write_policy_from_str n5 ≡ policy_for m.policy n5)
names_read_back m n1 n2 n3 n4 n5 h1 h2 h3 h4 h5 = (
  cache_mode_back m.cache n1 h1,
  operating_mode_back m.operating n2 h2,
  compression_state_back m.compression n3 h3,
  index_state_back m.index n4 h4,
  write_policy_back m.policy n5 h5,
  policy_from_back m.policy n5 h5,
)
