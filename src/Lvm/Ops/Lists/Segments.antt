-- ===== src/Lvm/Ops/Lists/Segments.antt =====
-- src/plugins/lvm/lvm.c (bd_lvm_lvs_tree, merge_lv_data): the segments of the logical volumes in a tree.
use libblockdev.Base.{
  ◌≤◌, Option, none, some, List, [], ◌∷◌, ◌++◌, Bool, true, false, Bytes, All, length,
  if◌then◌else◌, ◌≡◌, refl, sym, ap, subst, ◌∙◌, Bool-cases, inl, inr, arith, append-nil,
  append_assoc,
}
use libblockdev.Lvm.Data.{SegData, LvData, merge_lv_data}
use libblockdev.Lvm.Ops.Lists.{same_text, same_name, merge_into, merge_all}
use libblockdev.Lvm.Ops.Lists.Names.{same_text_sound, same_text_refl, IsDistinct}

abbrev pub segments : LvData → List SegData
segments lv = elim lv.segs [ none ↦ [] | some segs ↦ segs ]

-- The segments of all that have a name, in order.
unfoldable pub segments_of : Option Bytes → List LvData → List SegData
segments_of name [] = []
segments_of name (lv ∷ lvs) =
    (if same_text lv.lv_name name then segments lv else []) ++ segments_of name lvs

-- What a line of `lvs` describes: one segment at most.
abbrev pub OneSegment : LvData → Type 0
OneSegment lv = length (segments lv) ≤ 1

listed : Option (List SegData) → List SegData
listed none = []
listed (some segs) = segs

added : LvData → Option (List SegData) → LvData
added lv none = lv
added lv (some []) = lv
added lv (some (seg ∷ _)) = record lv { segs = some (listed lv.segs ++ (seg ∷ [])) }

merge_lv_data-added : (lv more : LvData) → merge_lv_data lv more ≡ added lv more.segs
unfolding merge_lv_data added listed
merge_lv_data-added lv more = ground arith

added_name : (lv : LvData) (s : Option (List SegData)) → (added lv s).lv_name ≡ lv.lv_name
unfolding added
added_name lv none = refl
added_name lv (some []) = refl
added_name lv (some (seg ∷ _)) = refl

segments-listed : (lv : LvData) → segments lv ≡ listed lv.segs
unfolding listed
segments-listed lv = ground arith

added-segments :
    (lv : LvData) (s : Option (List SegData))
    → length (listed s) ≤ 1
    → segments (added lv s) ≡ listed lv.segs ++ listed s
unfolding added listed
added-segments lv none h = segments-listed lv ∙ sym (append-nil (listed lv.segs))
added-segments lv (some []) h = segments-listed lv ∙ sym (append-nil (listed lv.segs))
added-segments lv (some (seg ∷ [])) h = refl
added-segments lv (some (seg ∷ (next ∷ segs))) h = absurd (omega arith)

merge_lv_data-segments :
    (lv more : LvData)
    → OneSegment more
    → segments (merge_lv_data lv more) ≡ segments lv ++ segments more
merge_lv_data-segments lv more h =
    ap segments (merge_lv_data-added lv more)
    ∙ added-segments lv more.segs (subst (λ l. length l ≤ 1) (segments-listed more) h)
    ∙ sym (ap (λ l. l ++ listed more.segs) (segments-listed lv))
    ∙ ap (λ l. segments lv ++ l) (sym (segments-listed more))

merge_lv_data-name : (lv more : LvData) → (merge_lv_data lv more).lv_name ≡ lv.lv_name
merge_lv_data-name lv more =
    ap (λ l. l.lv_name) (merge_lv_data-added lv more) ∙ added_name lv more.segs

-- What has another name adds nothing.
abbrev chosen : Bool → List SegData → List SegData
chosen b segs = if b then segs else []

absent :
    (name : Option Bytes) (lvs : List LvData)
    → All (λ lv. same_text lv.lv_name name ≡ false) lvs
    → segments_of name lvs ≡ []
unfolding segments_of
absent name [] h = refl
absent name (lv ∷ lvs) (other, h) = rw other (absent name lvs h)

same_text_swap : (a b : Option Bytes) → same_text a b ≡ false → same_text b a ≡ false
same_text_swap a b h = elim (Bool-cases (same_text b a)) [
  | inl same ↦ absurd (clash (sym (meet (same_text_sound b a same)) ∙ h))
  | inr other ↦ other
]
  where
    clash : true ≡ false → ⊥
    clash z = cc

    meet : b ≡ a → same_text a b ≡ true
    meet e = subst (λ c. same_text a c ≡ true) (sym e) (same_text_refl a)

apart_absent :
    (a name : Option Bytes) (lvs : List LvData)
    → a ≡ name
    → All (λ later. same_text a later.lv_name ≡ false) lvs
    → All (λ lv. same_text lv.lv_name name ≡ false) lvs
apart_absent a name [] e h = tt
apart_absent a name (lv ∷ lvs) e (other, h) = (
  subst (λ n. same_text lv.lv_name n ≡ false) e (same_text_swap a lv.lv_name other),
  apart_absent a name lvs e h,
)

-- The first with the name takes the segments.
taken :
    (name : Option Bytes) (o lv : LvData) (lvs : List LvData) (b : Bool)
    → same_text o.lv_name name ≡ b
    → o.lv_name ≡ lv.lv_name
    → All (λ later. same_name o later ≡ false) lvs
    → OneSegment lv
    → segments_of name (merge_lv_data o lv ∷ lvs)
      ≡ segments_of name (o ∷ lvs) ++ chosen (same_text lv.lv_name name) (segments lv)
unfolding segments_of
taken name o lv lvs true here same apart one =
    rw
      (
        merge_lv_data-name o lv,
        here,
        subst (λ n. same_text n name ≡ true) same here,
        absent name lvs
            (apart_absent o.lv_name name lvs (same_text_sound o.lv_name name here) apart),
        append-nil,
        append-nil,
      )
      (merge_lv_data-segments o lv one)
taken name o lv lvs false here same apart one =
    rw (merge_lv_data-name o lv, here, subst (λ n. same_text n name ≡ false) same here)
      (sym (append-nil (segments_of name lvs)))

merge_into-segments :
    (name : Option Bytes) (lvs : List LvData) (lv : LvData)
    → IsDistinct lvs
    → OneSegment lv
    → segments_of name (merge_into lvs lv)
      ≡ segments_of name lvs ++ chosen (same_text lv.lv_name name) (segments lv)
unfolding merge_into segments_of
merge_into-segments name [] lv d one = append-nil (chosen (same_text lv.lv_name name) (segments lv))
merge_into-segments name (o ∷ lvs) lv (apart, d) one = elim (Bool-cases (same_name o lv)) [
  | inl same ↦ rw same (
      taken name o lv lvs (same_text o.lv_name name) refl
        (same_text_sound o.lv_name lv.lv_name same) apart one)
  | inr other ↦ rw other (
      ap (λ l. chosen (same_text o.lv_name name) (segments o) ++ l)
        (merge_into-segments name lvs lv d one)
      ∙ sym (
          append_assoc (chosen (same_text o.lv_name name) (segments o)) (segments_of name lvs)
            (chosen (same_text lv.lv_name name) (segments lv))))
]

merge_into-All :
    (a : Option Bytes) (lvs : List LvData) (lv : LvData)
    → same_text a lv.lv_name ≡ false
    → All (λ later. same_text a later.lv_name ≡ false) lvs
    → All (λ later. same_text a later.lv_name ≡ false) (merge_into lvs lv)
unfolding merge_into
merge_into-All a [] lv new h = (new, tt)
merge_into-All a (o ∷ lvs) lv new (other, h) = elim (Bool-cases (same_name o lv)) [
  | inl same ↦ rw same (subst (λ n. same_text a n ≡ false) (sym (merge_lv_data-name o lv)) other, h)
  | inr different ↦ rw different (other, merge_into-All a lvs lv new h)
]

merge_into-IsDistinct :
    (lvs : List LvData) (lv : LvData) → IsDistinct lvs → IsDistinct (merge_into lvs lv)
unfolding merge_into
merge_into-IsDistinct [] lv d = (tt, tt)
merge_into-IsDistinct (o ∷ lvs) lv (apart, d) = elim (Bool-cases (same_name o lv)) [
  | inl same ↦ rw same (
    subst (λ n. All (λ later. same_text n later.lv_name ≡ false) lvs)
        (sym (merge_lv_data-name o lv)) apart,
    d,
  )
  | inr other ↦
      rw other (merge_into-All o.lv_name lvs lv other apart, merge_into-IsDistinct lvs lv d)
]

pub merge_all-grouped :
    (name : Option Bytes) (lvs read : List LvData)
    → IsDistinct lvs
    → All OneSegment read
    → IsDistinct (merge_all lvs read)
      × (segments_of name (merge_all lvs read) ≡ segments_of name lvs ++ segments_of name read)
unfolding merge_all segments_of
merge_all-grouped name lvs [] d one = (d, sym (append-nil (segments_of name lvs)))
merge_all-grouped name lvs (lv ∷ read) d (short, one) =
    let rest =
      merge_all-grouped name (merge_into lvs lv) read (merge_into-IsDistinct lvs lv d) one in
    (
      rest.0,
      rest.1
          ∙ ap (λ l. l ++ segments_of name read) (merge_into-segments name lvs lv d short)
          ∙ append_assoc (segments_of name lvs) (chosen (same_text lv.lv_name name) (segments lv))
              (segments_of name read),
    )
