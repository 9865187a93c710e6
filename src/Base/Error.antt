-- ===== src/Base/Error.antt =====
-- `GError`: an error domain with its code, and a message. A function of the library either
-- returns its value or fails with an error set.
use mathlib.Core.Path.{◌≡◌, refl}
use mathlib.Core.List.{◌++◌}
use libblockdev.Base.Text.{Bytes}

-- Only the codes that the modelled functions set or pass on.
pub data Code : Type 0 where
  exec_failed exec_noout exec_inval_ver exec_util_unavailable exec_util_unknown_ver : Code
  exec_util_low_ver exec_util_check_error exec_util_feature_check_error spawn_failed : Code
  module_check_error zfs_fail zfs_parse zfs_tech_unavail lvm_fail : Code
  lvm_devices_disabled lvm_tech_unavail lvm_parse lvm_cache_inval lvm_vdo_policy_inval : Code
  lvm_not_supported md_bad_format : Code

pub record GError : Type 0 where
  pub code : Code
  pub message : Bytes

pub data Result {ℓ} (A : Type ℓ) : Type ℓ where
  ok : A → Result A
  err : GError → Result A

-- `g_set_error (error, domain, code, message); return FALSE;`
abbrev pub fail {ℓ} : {A : Type ℓ} → Code → Bytes → Result A
fail c m = err (record { code = c; message = m })

-- `if (!f (…, error)) return FALSE;`, with the value and for a function that returns nothing else.
infixl 5 ◌>>=◌ ◌>>◌
abbrev pub ◌>>=◌ {ℓ κ} : {A : Type ℓ} {B : Type κ} → Result A → (A → Result B) → Result B
err e >>= next = err e
ok value >>= next = next value

abbrev pub ◌>>◌ {κ} : {B : Type κ} → Result (Unit {0}) → Result B → Result B
test >> rest = test >>= λ _. rest

-- `g_prefix_error (error, prefix)`
abbrev pub prefix_error : Bytes → GError → GError
prefix_error p e = record e { message = p ++ e.message }

-- A chain that returns a value: so does its first part, and the rest returns that value.
module _ {ℓ κ} {A : Type ℓ} {B : Type κ} where
  pub bind-eq-ok :
      (first : Result A) (next : A → Result B) {value : B}
      → first >>= next ≡ ok value
      → (found : A) × (first ≡ ok found) × (next found ≡ ok value)
  bind-eq-ok (err e) next returned = cc
  bind-eq-ok (ok found) next returned = (found, refl, returned)
