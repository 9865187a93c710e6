-- ===== src/Utils/Version/Check.antt =====
-- What a successful check of a program's version means.
use libblockdev.Base.{some, true, ◌≡◌, refl, inl, inr, ◌↔◌, Bytes, ok, Bool-cases, bind-eq-ok}
use libblockdev.Utils.Version.Order.{AtMost, version_cmp-swap, version_cmp_trans}
use libblockdev.Utils.Version.{
  version_cmp, Cmp, lower, same, higher, Tools, UtilDep, detect_version, judge_version,
  require_version, check_util_version,
}

require_version-AtMost :
    (util found wanted : Bytes)
    → require_version util found wanted ≡ ok tt
    → AtMost (version_cmp wanted found)
unfolding require_version
require_version-AtMost util found wanted h =
    let (c, e, j) = bind-eq-ok (version_cmp found wanted) (judge_version util found wanted) h in
    judged c e j
  where
    judged :
        (c : Cmp)
        → version_cmp found wanted ≡ ok c
        → judge_version util found wanted c ≡ ok tt
        → AtMost (version_cmp wanted found)
    judged lower q k = cc
    judged same q k = inr (version_cmp-swap found wanted q)
    judged higher q k = inl (version_cmp-swap found wanted q)

AtMost-require_version :
    (util found wanted : Bytes)
    → AtMost (version_cmp wanted found)
    → require_version util found wanted ≡ ok tt
AtMost-require_version util found wanted (inl h) =
    unfold require_version in rw (version_cmp-swap wanted found h) refl
AtMost-require_version util found wanted (inr h) =
    unfold require_version in rw (version_cmp-swap wanted found h) refl

-- A check with a required version succeeds exactly if the program is in the path, its version can be
-- determined, and the required version is not higher than that one.
pub check_util_version_iff :
    (tools : Tools) (dep : UtilDep) (wanted : Bytes)
    → dep.version ≡ some wanted
    → (check_util_version tools dep ≡ ok tt) ↔ (
        (tools.find_program dep.name ≡ true)
        × ((found : Bytes) × (detect_version tools dep ≡ ok found)
            × AtMost (version_cmp wanted found)))
unfolding check_util_version
check_util_version_iff tools dep wanted v = (there, back)
  where
    there :
        check_util_version tools dep ≡ ok tt
        → (tools.find_program dep.name ≡ true)
          × ((found : Bytes) × (detect_version tools dep ≡ ok found)
              × AtMost (version_cmp wanted found))
    there h = elim (Bool-cases (tools.find_program dep.name)) [
      | inl f ↦
          let (found, d, r) =
            bind-eq-ok (detect_version tools dep) (λ found. require_version dep.name found wanted)
              (rw (f, v, check_util_version) at h) in
          (f, (found, d, require_version-AtMost dep.name found wanted r))
      | inr f ↦ let k = rw (f, check_util_version) at h in cc k
    ]

    back :
        (tools.find_program dep.name ≡ true)
          × ((found : Bytes) × (detect_version tools dep ≡ ok found)
              × AtMost (version_cmp wanted found))
        → check_util_version tools dep ≡ ok tt
    back (f, (found, d, a)) =
        rw (f, v, d, check_util_version) (AtMost-require_version dep.name found wanted a)

-- A program that passes the check for one required version passes it for every version that is not
-- higher.
pub check_util_version_mono :
    (tools : Tools) (dep : UtilDep) (wanted less : Bytes)
    → dep.version ≡ some wanted
    → AtMost (version_cmp less wanted)
    → check_util_version tools dep ≡ ok tt
    → check_util_version tools (record dep { version = some less }) ≡ ok tt
check_util_version_mono tools dep wanted less v a h =
    let (f, (found, d, r)) = (check_util_version_iff tools dep wanted v).0 h in
    (check_util_version_iff tools (record dep { version = some less }) less refl).1
      (f, (found, (unfold detect_version in d), version_cmp_trans less wanted found a r))
