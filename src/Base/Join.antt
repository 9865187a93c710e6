-- ===== src/Base/Join.antt =====
-- Text that is joined by a separator, as programs print lines and fields, is split into its parts again
-- by g_strsplit.
use Prim.Native.Nat.{ℕ}
use mathlib.Core.Path.{◌≡◌, refl, ap, ◌∙◌}
use mathlib.Core.Bool.{Bool, true, false}
use mathlib.Core.List.{◌++◌, List, [], ◌∷◌, append-nil, append_assoc}
use libblockdev.Base.Logic.{◌==◌}
use libblockdev.Base.Lists.{All}
use libblockdev.Base.Text.{Bytes, split_parts, strsplit_set, is_empty}

abbrev pub join : ℕ → List Bytes → Bytes
join k [] = []
join k (d ∷ []) = d
join k (d ∷ (b ∷ ds)) = d ++ (k ∷ join k (b ∷ ds))

-- The separators are any set, and one of them is between the parts.
module _ (sep : ℕ → Bool) where
  abbrev pub Free : Bytes → Type 0
  Free = All (λ c. sep c ≡ false)

  split_text : (text part : Bytes) → Free text → split_parts sep text part ≡ (part ++ text) ∷ []
  unfolding split_parts
  split_text [] part h = rw (append-nil part) refl
  split_text (c ∷ text) part (e, h) =
      rw e (split_text text (part ++ c ∷ []) h ∙ ap (λ t. t ∷ []) (append_assoc part (c ∷ []) text))

  split_at :
      (k : ℕ) (text part rest : Bytes)
      → Free text
      → sep k ≡ true
      → split_parts sep (text ++ k ∷ rest) part ≡ (part ++ text) ∷ split_parts sep rest []
  unfolding split_parts
  split_at k [] part rest h s = rw (append-nil part, s) refl
  split_at k (c ∷ text) part rest (e, h) s = rw e (
      split_at k text (part ++ c ∷ []) rest h s
      ∙ ap (λ t. t ∷ split_parts sep rest []) (append_assoc part (c ∷ []) text))

  pub split_parts-join :
      (k : ℕ) (d : Bytes) (ds : List Bytes)
      → All Free (d ∷ ds)
      → sep k ≡ true
      → split_parts sep (join k (d ∷ ds)) [] ≡ d ∷ ds
  split_parts-join k d [] (h, _) s = split_text d [] h
  split_parts-join k d (b ∷ ds) (h, hs) s =
      split_at k d [] (join k (b ∷ ds)) h s ∙ ap (◌∷◌ d) (split_parts-join k b ds hs s)

  pub strsplit_nonempty :
      (s : Bytes) → is_empty s ≡ false → strsplit_set sep s ≡ split_parts sep s []
  unfolding strsplit_set
  strsplit_nonempty [] h = cc
  strsplit_nonempty (c ∷ s) h = refl

module _ (k : ℕ) where
  abbrev pub at : ℕ → Bool
  at c = c == k

  -- A text without the separator.
  abbrev pub Without : Bytes → Type 0
  Without = Free at

  pub join_not_empty :
      (d : Bytes) (ds : List Bytes) → is_empty d ≡ false → is_empty (join k (d ∷ ds)) ≡ false
  join_not_empty [] ds h = cc
  join_not_empty (c ∷ d) [] h = refl
  join_not_empty (c ∷ d) (b ∷ ds) h = refl

  pub strsplit_set-join :
      (d : Bytes) (ds : List Bytes)
      → All Without (d ∷ ds)
      → at k ≡ true
      → is_empty (join k (d ∷ ds)) ≡ false
      → strsplit_set at (join k (d ∷ ds)) ≡ d ∷ ds
  strsplit_set-join d ds h s ne =
      strsplit_nonempty at (join k (d ∷ ds)) ne ∙ split_parts-join at k d ds h s
