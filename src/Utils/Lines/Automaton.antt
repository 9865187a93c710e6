-- ===== src/Utils/Lines/Automaton.antt =====
-- The search for line ends refines an automaton that takes one byte at a time.
use mathlib.Core.Option
use libblockdev.Base.{
  ℕ, zero, suc, ◌+◌, ◌≤◌, Option, none, some, [], ◌∷◌, ◌++◌, Bool, true, false, ◌||◌, ◌≡◌, refl, ap,
  sym, ◌∙◌, arith, Bytes, if◌then◌else◌, ◌==◌, length, take, drop, append-nil, append_assoc,
  Bool-cases, inl, inr, length-append, length-drop, ◌⊎◌,
}
use libblockdev.Utils.Lines.{
  memchr, nearest, strchr_len_null, c_string, ProgExtract, Sink, handle_line, drain_lines,
}

-- A byte that ends a line: newline or NUL.
abbrev pub is_end : ℕ → Bool
is_end c = c == b'\n' || c == 0

-- The line that an end byte closes; a NUL is not part of it.
abbrev pub close_line : Bytes → ℕ → Bytes
close_line cur c = if c == 0 then cur else cur ++ c ∷ []

-- The automaton: the line so far, the input, the sink.
unfoldable pub feed : Option ProgExtract → Bytes → Bytes → Sink → Bytes × Sink
feed extract cur [] s = (cur, s)
feed extract cur (c ∷ input) s =
    let closed = feed extract [] input (handle_line extract (close_line cur c) s) in
    let longer = feed extract (cur ++ c ∷ []) input s in if is_end c then closed else longer

-- Feeding in two parts is feeding the whole.
pub feed-append :
    (extract : Option ProgExtract) (cur xs ys : Bytes) (s : Sink)
    → feed extract cur (xs ++ ys) s
      ≡ (let (mid, s') = feed extract cur xs s in feed extract mid ys s')
unfolding feed
feed-append extract cur [] ys s = refl
feed-append extract cur (c ∷ xs) ys s = elim (Bool-cases (is_end c)) [
  | inl e ↦ rw e (feed-append extract [] xs ys (handle_line extract (close_line cur c) s))
  | inr e ↦ rw e (feed-append extract (cur ++ c ∷ []) xs ys s)
]

-- No line end in the text.
abbrev pub NoEnd : Bytes → Type 0
NoEnd [] = Unit
NoEnd (c ∷ s) = (is_end c ≡ false) × NoEnd s

pub NoEnd-concat : (s : Bytes) (c : ℕ) → NoEnd s → is_end c ≡ false → NoEnd (s ++ c ∷ [])
NoEnd-concat [] c h e = (e, tt)
NoEnd-concat (x ∷ s) c (hx, hs) e = (hx, NoEnd-concat s c hs e)

-- A text without line ends only makes the current line longer.
pub feed-NoEnd :
    (extract : Option ProgExtract) (cur xs : Bytes) (s : Sink)
    → NoEnd xs
    → feed extract cur xs s ≡ (cur ++ xs, s)
unfolding feed
feed-NoEnd extract cur [] s h = rw append-nil
feed-NoEnd extract cur (c ∷ xs) s (e, h) =
    rw e
      (feed-NoEnd extract (cur ++ c ∷ []) xs s h ∙ ap (λ t. (t, s)) (append_assoc cur (c ∷ []) xs))

pub feed_rest-NoEnd :
    (extract : Option ProgExtract) (cur xs : Bytes) (s : Sink)
    → NoEnd cur
    → NoEnd (feed extract cur xs s).0
unfolding feed
feed_rest-NoEnd extract cur [] s h = h
feed_rest-NoEnd extract cur (c ∷ xs) s h = elim (Bool-cases (is_end c)) [
  | inl e ↦ rw e (feed_rest-NoEnd extract [] xs (handle_line extract (close_line cur c) s) tt)
  | inr e ↦ rw e (feed_rest-NoEnd extract (cur ++ c ∷ []) xs s (NoEnd-concat cur c h e))
]

-- The search stops at the first line end.
strchr_len_null-cons :
    (x : ℕ) (s : Bytes)
    → strchr_len_null (x ∷ s) b'\n'
      ≡ (if is_end x then some 0 else Option.map suc (strchr_len_null s b'\n'))
unfolding strchr_len_null
strchr_len_null-cons x s = nearest_cons (memchr s b'\n') (memchr s 0)
  where
    nearest_cons :
        (a b : Option ℕ)
        → nearest
            (if x == b'\n' then some 0 else Option.map suc a)
            (if x == 0 then some 0 else Option.map suc b)
          ≡ (if is_end x then some 0 else Option.map suc (nearest a b))
    nearest_cons none none = ground arith
    nearest_cons none (some j) = ground arith
    nearest_cons (some i) none = ground arith
    nearest_cons (some i) (some j) = ground arith

strchr_len_null-NoEnd : (s : Bytes) → NoEnd s → strchr_len_null s b'\n' ≡ none
strchr_len_null-NoEnd [] h = unfold strchr_len_null in refl
strchr_len_null-NoEnd (x ∷ s) (e, h) =
    strchr_len_null-cons x s ∙ rw (e, strchr_len_null-NoEnd s h) refl

strchr_len_null_split :
    (pre : Bytes) (c : ℕ) (post : Bytes)
    → NoEnd pre
    → is_end c ≡ true
    → strchr_len_null (pre ++ c ∷ post) b'\n' ≡ some (length pre)
strchr_len_null_split [] c post h e = strchr_len_null-cons c post ∙ rw e refl
strchr_len_null_split (x ∷ pre) c post (ex, h) e =
    strchr_len_null-cons x (pre ++ c ∷ post) ∙ rw (ex, strchr_len_null_split pre c post h e) refl

-- The first line of a text that has a line end.
record Split (s : Bytes) : Type 0 where
  pre : Bytes
  at : ℕ
  post : Bytes
  splits : s ≡ pre ++ at ∷ post
  pre_open : NoEnd pre
  at_end : is_end at ≡ true

Split-cases : (s : Bytes) → NoEnd s ⊎ Split s
Split-cases [] = inl tt
Split-cases (c ∷ s) = elim (Bool-cases (is_end c)) [
  | inl e ↦ inr (record { pre = []; at = c; post = s; splits = refl; pre_open = tt; at_end = e })
  | inr e ↦ elim (Split-cases s) [
    | inl h ↦ inl (e, h)
    | inr p ↦ inr (record {
      pre = c ∷ p.pre;
      at = p.at;
      post = p.post;
      splits = ap (◌∷◌ c) p.splits;
      pre_open = (e, p.pre_open);
      at_end = p.at_end;
    })
  ]
]

pub c_string-NoEnd : (s : Bytes) → NoEnd s → c_string s ≡ s
unfolding c_string
c_string-NoEnd [] h = refl
c_string-NoEnd (c ∷ s) (e, h) = ground (arith, c_string-NoEnd s h)

c_string-close_line :
    (pre : Bytes) (c : ℕ)
    → NoEnd pre
    → is_end c ≡ true
    → c_string (pre ++ c ∷ []) ≡ close_line pre c
unfolding c_string
c_string-close_line [] c h e = ground arith
c_string-close_line (x ∷ pre) c (ex, h) e = ground (arith, c_string-close_line pre c h e)

take_line :
    (pre : Bytes) (c : ℕ) (post : Bytes) → take (length pre + 1) (pre ++ c ∷ post) ≡ pre ++ c ∷ []
take_line [] c post = refl
take_line (x ∷ pre) c post =
    let e : length (x ∷ pre) + 1 ≡ suc (length pre + 1) = omega arith in
    rw e (ap (◌∷◌ x) (take_line pre c post))

drop_line : (pre : Bytes) (c : ℕ) (post : Bytes) → drop (length pre + 1) (pre ++ c ∷ post) ≡ post
drop_line [] c post = refl
drop_line (x ∷ pre) c post =
    let e : length (x ∷ pre) + 1 ≡ suc (length pre + 1) = omega arith in rw e (drop_line pre c post)

pub drop-add : (n m : ℕ) (s : Bytes) → drop (n + m) s ≡ drop m (drop n s)
drop-add zero m s = let e : 0 + m ≡ m = omega arith in rw e
drop-add (suc n) zero [] = let e : suc n + 0 ≡ suc n = omega arith in rw e
drop-add (suc n) (suc m) [] = let e : suc n + suc m ≡ suc (n + suc m) = omega arith in rw e
drop-add (suc n) m (x ∷ s) = let e : suc n + m ≡ suc (n + m) = omega arith in rw e (drop-add n m s)

drop_all : (n : ℕ) (xs : Bytes) → length xs ≤ n → drop n xs ≡ []
drop_all zero [] h = refl
drop_all zero (x ∷ xs) h = absurd (omega arith)
drop_all (suc n) [] h = refl
drop_all (suc n) (x ∷ xs) h = drop_all n xs (omega arith)

-- A line and what follows it.
feed_split :
    (extract : Option ProgExtract) (pre : Bytes) (c : ℕ) (post : Bytes) (s : Sink)
    → NoEnd pre
    → is_end c ≡ true
    → feed extract [] (pre ++ c ∷ post) s
      ≡ feed extract [] post (handle_line extract (close_line pre c) s)
feed_split extract pre c post s h e =
    feed-append extract [] pre (c ∷ post) s
    ∙ (ap (λ (p : Bytes × Sink). feed extract p.0 (c ∷ post) p.1) (feed-NoEnd extract [] pre s h)
        ∙ (unfold feed in rw e refl))

drain_stop :
    (fuel : ℕ) (extract : Option ProgExtract) (buffer : Bytes) (pos : ℕ) (s : Sink)
    → strchr_len_null (drop pos buffer) b'\n' ≡ none
    → drain_lines (suc fuel) extract buffer pos s ≡ (pos, s)
drain_stop fuel extract buffer pos s e = unfold drain_lines in rw (e, drain_lines) refl

drain_line :
    (fuel : ℕ) (extract : Option ProgExtract) (buffer : Bytes) (pos n : ℕ) (s : Sink)
    → strchr_len_null (drop pos buffer) b'\n' ≡ some n
    → drain_lines (suc fuel) extract buffer pos s
      ≡ drain_lines fuel extract buffer
          (pos + (n + 1))
          (handle_line extract (c_string (take (n + 1) (drop pos buffer))) s)
drain_line fuel extract buffer pos n s e = unfold drain_lines in rw (e, drain_lines) refl

abbrev pub left_over : Bytes → ℕ × Sink → Bytes × Sink
left_over buffer (pos, s) = (drop pos buffer, s)

-- With enough fuel the loop leaves the bytes and the sink that the automaton leaves.
pub drain_lines-feed :
    (fuel : ℕ) (extract : Option ProgExtract) (buffer : Bytes) (pos : ℕ) (s : Sink) (u : Bytes)
    → drop pos buffer ≡ u
    → length u ≤ fuel
    → left_over buffer (drain_lines fuel extract buffer pos s) ≡ feed extract [] u s
drain_lines-feed zero extract buffer pos s [] at h = unfold drain_lines feed in rw at refl
drain_lines-feed zero extract buffer pos s (c ∷ u) at h = absurd (omega arith)
drain_lines-feed (suc fuel) extract buffer pos s u at h = elim (Split-cases u) [
  | inl no_end ↦
      ap (left_over buffer)
        (drain_stop fuel extract buffer pos s (rw at (strchr_len_null-NoEnd u no_end)))
      ∙ (ap (λ t. (t, s)) at ∙ sym (feed-NoEnd extract [] u s no_end))
  | inr p ↦
      let found : strchr_len_null (drop pos buffer) b'\n' ≡ some (length p.pre) =
        rw (at, p.splits) (strchr_len_null_split p.pre p.at p.post p.pre_open p.at_end) in
      let line : c_string (take (length p.pre + 1) (drop pos buffer)) ≡ close_line p.pre p.at =
        rw (at, p.splits, take_line p.pre p.at p.post)
          (c_string-close_line p.pre p.at p.pre_open p.at_end) in
      let rest : drop (pos + (length p.pre + 1)) buffer ≡ p.post =
        drop-add pos (length p.pre + 1) buffer ∙ rw (at, p.splits) (drop_line p.pre p.at p.post) in
      let shorter : length p.post ≤ fuel =
        omega (arith, ap length p.splits, length-append p.pre (p.at ∷ p.post)) in
      ap (left_over buffer) (drain_line fuel extract buffer pos (length p.pre) s found)
      ∙ (drain_lines-feed fuel extract buffer (pos + (length p.pre + 1))
            (handle_line extract (c_string (take (length p.pre + 1) (drop pos buffer))) s) p.post
            rest shorter
          ∙ (ap (λ l. feed extract [] p.post (handle_line extract l s)) line
              ∙ (sym (feed_split extract p.pre p.at p.post s p.pre_open p.at_end)
                  ∙ ap (λ t. feed extract [] t s) (sym p.splits))))
]

length-drop_le :
    (n : ℕ) (xs ys : Bytes) → drop n xs ≡ ys → n ≤ length xs → n + length ys ≡ length xs
length-drop_le n xs ys e h = omega (arith, ap length e, length-drop n xs)

-- The position never passes the end of the buffer.
pub drain_lines-le :
    (fuel : ℕ) (extract : Option ProgExtract) (buffer : Bytes) (pos : ℕ) (s : Sink)
    → pos ≤ length buffer
    → (drain_lines fuel extract buffer pos s).0 ≤ length buffer
drain_lines-le zero extract buffer pos s h = unfold drain_lines in h
drain_lines-le (suc fuel) extract buffer pos s h = elim (Split-cases (drop pos buffer)) [
  | inl no_end ↦
      rw (drain_stop fuel extract buffer pos s (strchr_len_null-NoEnd (drop pos buffer) no_end)) h
  | inr p ↦
      let found : strchr_len_null (drop pos buffer) b'\n' ≡ some (length p.pre) =
        rw (p.splits) (strchr_len_null_split p.pre p.at p.post p.pre_open p.at_end) in
      rw (drain_line fuel extract buffer pos (length p.pre) s found) (
        drain_lines-le fuel extract buffer (pos + (length p.pre + 1))
          (handle_line extract (c_string (take (length p.pre + 1) (drop pos buffer))) s)
          (omega (
            arith,
            length-drop_le pos buffer (p.pre ++ p.at ∷ p.post) p.splits h,
            length-append p.pre (p.at ∷ p.post),
          )))
]

-- Nothing happens where nothing is unread.
pub drain_lines_idle :
    (fuel : ℕ) (extract : Option ProgExtract) (buffer : Bytes) (pos : ℕ) (s : Sink)
    → length buffer ≤ pos
    → drain_lines fuel extract buffer pos s ≡ (pos, s)
drain_lines_idle zero extract buffer pos s h = unfold drain_lines in refl
drain_lines_idle (suc fuel) extract buffer pos s h =
    drain_stop fuel extract buffer pos s (rw (drop_all pos buffer h) (strchr_len_null-NoEnd [] tt))
