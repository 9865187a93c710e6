-- ===== src/Lvm/Ops/Lists/Names.antt =====
-- src/plugins/lvm/lvm.c (bd_lvm_lvs, bd_lvm_lvs_tree): the names in the lists of logical volumes.
use libblockdev.Base.{
  Option, none, some, List, [], ◌∷◌, ◌++◌, Bool, true, false, Bytes, All, All-append, any, ◌||◌,
  ◌≡◌, refl, sym, ap, subst, ◌∙◌, Bool-cases, inl, inr, bytes_eq_sound, bytes_eq_refl,
}
use libblockdev.Lvm.Data.{LvData}
use libblockdev.Lvm.Ops.Lists.{same_text, same_name, add_new, without_doubles}

pub same_text_sound : (a b : Option Bytes) → same_text a b ≡ true → a ≡ b
same_text_sound none none h = refl
same_text_sound none (some b) h = cc
same_text_sound (some a) none h = cc
same_text_sound (some a) (some b) h = ap some (bytes_eq_sound a b h)

pub same_text_refl : (a : Option Bytes) → same_text a a ≡ true
same_text_refl none = refl
same_text_refl (some a) = bytes_eq_refl a

-- No two have the same name.
abbrev pub IsDistinct : List LvData → Type 0
IsDistinct [] = Unit
IsDistinct (lv ∷ lvs) = All (λ later. same_name lv later ≡ false) lvs × IsDistinct lvs

abbrev IsNew : LvData → LvData → Type 0
IsNew lv other = same_name other lv ≡ false

or_false_parts : (a b : Bool) → (a || b) ≡ false → (a ≡ false) × (b ≡ false)
or_false_parts true b h = cc
or_false_parts false b h = (refl, h)

or_false : (a : Bool) → (a || false) ≡ a
or_false true = refl
or_false false = refl

or_true : (a : Bool) → (a || true) ≡ true
or_true true = refl
or_true false = refl

or_assoc : (a b c : Bool) → ((a || b) || c) ≡ (a || (b || c))
or_assoc true b c = refl
or_assoc false b c = refl

none_same :
    (lv : LvData) (lvs : List LvData)
    → any (λ other. same_name other lv) lvs ≡ false
    → All (IsNew lv) lvs
none_same lv [] h = tt
none_same lv (other ∷ lvs) h =
    let parts = or_false_parts (same_name other lv) (any (λ x. same_name x lv) lvs) h in
    (parts.0, none_same lv lvs parts.1)

snoc-IsDistinct :
    (lvs : List LvData) (lv : LvData)
    → All (IsNew lv) lvs
    → IsDistinct lvs
    → IsDistinct (lvs ++ (lv ∷ []))
snoc-IsDistinct [] lv new d = (tt, tt)
snoc-IsDistinct (other ∷ lvs) lv (n, new) (apart, d) = (
  All-append (λ later. same_name other later ≡ false) lvs (lv ∷ []) apart (n, tt),
  snoc-IsDistinct lvs lv new d,
)

add_new-IsDistinct :
    (lvs : List LvData) (lv : LvData) → IsDistinct lvs → IsDistinct (add_new lvs lv)
unfolding add_new
add_new-IsDistinct lvs lv d = elim (Bool-cases (any (λ other. same_name other lv) lvs)) [
  | inl known ↦ rw known d
  | inr new ↦ rw new (snoc-IsDistinct lvs lv (none_same lv lvs new) d)
]

pub without_doubles-IsDistinct :
    (lvs read : List LvData) → IsDistinct lvs → IsDistinct (without_doubles lvs read)
unfolding without_doubles
without_doubles-IsDistinct lvs [] d = d
without_doubles-IsDistinct lvs (lv ∷ rest) d =
    without_doubles-IsDistinct (add_new lvs lv) rest (add_new-IsDistinct lvs lv d)

-- Whether a name is in a list.
abbrev pub has_name : Option Bytes → List LvData → Bool
has_name name lvs = any (λ other. same_text other.lv_name name) lvs

has_name-append :
    (name : Option Bytes) (lvs more : List LvData)
    → has_name name (lvs ++ more) ≡ (has_name name lvs || has_name name more)
has_name-append name [] more = refl
has_name-append name (lv ∷ lvs) more = elim (Bool-cases (same_text lv.lv_name name)) [
  | inl same ↦ rw same refl
  | inr other ↦ rw other (has_name-append name lvs more)
]

known_name :
    (lvs : List LvData) (a name : Option Bytes)
    → has_name a lvs ≡ true
    → same_text a name ≡ true
    → has_name name lvs ≡ true
known_name lvs a name h same = subst (λ n. has_name n lvs ≡ true) (same_text_sound a name same) h

known_or :
    (lvs : List LvData) (a name : Option Bytes)
    → has_name a lvs ≡ true
    → has_name name lvs ≡ (has_name name lvs || same_text a name)
known_or lvs a name h = elim (Bool-cases (same_text a name)) [
  | inl same ↦ rw (same, known_name lvs a name h same) refl
  | inr other ↦ rw other (sym (or_false (has_name name lvs)))
]

pub add_new-has_name :
    (name : Option Bytes) (lvs : List LvData) (lv : LvData)
    → has_name name (add_new lvs lv) ≡ (has_name name lvs || same_text lv.lv_name name)
unfolding add_new
add_new-has_name name lvs lv = elim (Bool-cases (has_name lv.lv_name lvs)) [
  | inl known ↦ rw known (known_or lvs lv.lv_name name known)
  | inr new ↦ rw new (
      has_name-append name lvs (lv ∷ [])
      ∙ ap (λ b. has_name name lvs || b) (or_false (same_text lv.lv_name name)))
]

-- The names that are listed are those that are read.
pub without_doubles-has_name :
    (name : Option Bytes) (lvs read : List LvData)
    → has_name name (without_doubles lvs read) ≡ (has_name name lvs || has_name name read)
unfolding without_doubles
without_doubles-has_name name lvs [] = sym (or_false (has_name name lvs))
without_doubles-has_name name lvs (lv ∷ rest) =
    without_doubles-has_name name (add_new lvs lv) rest
    ∙ ap (λ b. b || has_name name rest) (add_new-has_name name lvs lv)
    ∙ or_assoc (has_name name lvs) (same_text lv.lv_name name) (has_name name rest)

add_new_known :
    (lvs : List LvData) (lv : LvData) → has_name lv.lv_name lvs ≡ true → add_new lvs lv ≡ lvs
unfolding add_new
add_new_known lvs lv h = rw h refl

lost_now :
    (lvs read : List LvData) (lv : LvData) (rest : List LvData)
    → has_name lv.lv_name lvs ≡ true
    → without_doubles lvs (read ++ (lv ∷ rest)) ≡ without_doubles lvs (read ++ rest)
unfolding without_doubles
lost_now lvs [] lv rest h = ap (λ l. without_doubles l rest) (add_new_known lvs lv h)
lost_now lvs (x ∷ read) lv rest h =
    lost_now (add_new lvs x) read lv rest
      (add_new-has_name lv.lv_name lvs x ∙ ap (λ b. b || same_text x.lv_name lv.lv_name) h)

-- A line about an LV is without effect if an earlier line has the same name, whichever volume groups
-- the two are about.
pub without_doubles-lost :
    (lvs read : List LvData) (lv : LvData) (rest : List LvData)
    → has_name lv.lv_name read ≡ true
    → without_doubles lvs (read ++ (lv ∷ rest)) ≡ without_doubles lvs (read ++ rest)
unfolding without_doubles
without_doubles-lost lvs [] lv rest h = cc
without_doubles-lost lvs (x ∷ read) lv rest h = elim (Bool-cases (same_text x.lv_name lv.lv_name)) [
  | inl same ↦ lost_now (add_new lvs x) read lv rest (
      add_new-has_name lv.lv_name lvs x
      ∙ ap (λ b. has_name lv.lv_name lvs || b) same
      ∙ or_true (has_name lv.lv_name lvs))
  | inr other ↦
      without_doubles-lost (add_new lvs x) read lv rest
        (sym (ap (λ b. b || has_name lv.lv_name read) other) ∙ h)
]

-- Of any logical volumes that are read one after the other, the list that is kept has every name that
-- was read, and no two in it have the same name.
pub lvs_names :
    (read : List LvData) (name : Option Bytes)
    → IsDistinct (without_doubles [] read)
      × (has_name name (without_doubles [] read) ≡ has_name name read)
lvs_names read name = (without_doubles-IsDistinct [] read tt, without_doubles-has_name name [] read)
