-- ===== src/Utils/Lines/Chunks.antt =====
-- A whole stream: how the output arrives in pieces does not matter.
use libblockdev.Base.{
  ℕ, suc, ◌≤◌, Option, none, List, [], ◌∷◌, ◌++◌, true, false, ◌≡◌, refl, ap, sym, ◌∙◌, ◌⊎◌, arith,
  Bytes, is_empty, if◌then◌else◌, ◌==◌, ltb, length, drop, append-nil, append_assoc, length-append,
  length-drop, Bool-cases, inl, inr, All,
}
use libblockdev.Utils.Lines.{
  ProgExtract, Sink, Round, going, ◌>>=◌, Stream, FdEvent, eof, again, handle_line, drain_lines,
  take_chunk, close_stream, process_fd_event,
}
use libblockdev.Utils.Lines.Automaton.{
  feed, feed-append, feed-NoEnd, feed_rest-NoEnd, NoEnd, is_end, close_line, drain_lines-feed,
  drain_lines-le, drain_lines_idle, c_string-NoEnd,
}

-- The loop of the caller, at one descriptor: `process_fd_event` for each event in turn.
unfoldable pub process_events :
    Option ProgExtract → List FdEvent → Stream → Sink → Round (Stream × Sink)
process_events extract [] st s = going (st, s)
process_events extract (ev ∷ evs) st s = do
  r ← process_fd_event extract ev st s
  process_events extract evs r.0 r.1

abbrev pub empty_stream : Stream
empty_stream = record { read_buffer = []; read_buffer_pos = 0; done = false }

-- What the stream holds agrees with the automaton on the input read so far.
abbrev pub Agrees : Option ProgExtract → Sink → Bytes → Stream × Sink → Type 0
Agrees extract s₀ input (st, s) =
    (st.read_buffer_pos ≤ length st.read_buffer)
    × ((drop st.read_buffer_pos st.read_buffer, s) ≡ feed extract [] input s₀)

drop_append : (n : ℕ) (xs ys : Bytes) → n ≤ length xs → drop n (xs ++ ys) ≡ drop n xs ++ ys
drop_append ℕ.zero xs ys h = refl
drop_append (suc n) [] ys h = absurd (omega arith)
drop_append (suc n) (x ∷ xs) ys h = drop_append n xs ys (omega arith)

-- Without the test for fresh data the step is the same.
take_chunk_lem :
    (extract : Option ProgExtract) (chunk : Bytes) (st : Stream) (s : Sink)
    → take_chunk extract chunk st s ≡ (
        let buffer = st.read_buffer ++ chunk in
        let (pos, s') = drain_lines (length buffer) extract buffer st.read_buffer_pos s in
        (record st { read_buffer = buffer; read_buffer_pos = pos }, s'))
take_chunk_lem extract chunk st s =
    elim (Bool-cases (ltb st.read_buffer_pos (length (st.read_buffer ++ chunk)))) [
      | inl e ↦ unfold take_chunk in rw e refl
      | inr e ↦
          let idle =
            drain_lines_idle (length (st.read_buffer ++ chunk)) extract (st.read_buffer ++ chunk)
              st.read_buffer_pos s (ground arith) in
          unfold take_chunk in rw e (rw idle refl)
    ]

-- A piece that arrives.
take_chunk-Agrees :
    (extract : Option ProgExtract) (s₀ s : Sink) (input chunk : Bytes) (st : Stream)
    → Agrees extract s₀ input (st, s)
    → Agrees extract s₀ (input ++ chunk) (take_chunk extract chunk st s)
take_chunk-Agrees extract s₀ s input chunk st (fits, agree) =
    let buffer : Bytes = st.read_buffer ++ chunk in
    let pos : ℕ = st.read_buffer_pos in
    let u : Bytes = drop pos st.read_buffer in
    let longer : pos ≤ length buffer = omega (arith, length-append st.read_buffer chunk, fits) in
    let at : drop pos buffer ≡ u ++ chunk = drop_append pos st.read_buffer chunk fits in
    let no_end : NoEnd u =
      rw (ap (λ (p : Bytes × Sink). p.0) agree) (feed_rest-NoEnd extract [] input s₀ tt) in
    let enough : length (u ++ chunk) ≤ length buffer =
      omega (arith, ap length at, length-drop pos buffer) in
    rw (take_chunk_lem extract chunk st s) (
      drain_lines-le (length buffer) extract buffer pos s longer,
      drain_lines-feed (length buffer) extract buffer pos s (u ++ chunk) at enough
          ∙ (feed-append extract [] u chunk s
              ∙ (ap (λ (p : Bytes × Sink). feed extract p.0 chunk p.1)
                    (feed-NoEnd extract [] u s no_end ∙ agree)
                  ∙ sym (feed-append extract [] input chunk s₀))),
    )

-- The text behind the last line end is one more line, unless it is empty.
abbrev pub last_line : Option ProgExtract → Bytes × Sink → Sink
last_line extract (t, s) = if is_empty t then s else handle_line extract t s

-- All of a stream: its lines, and the text behind them.
unfoldable pub read_all : Option ProgExtract → Bytes → Sink → Sink
read_all extract input s = last_line extract (feed extract [] input s)

close_stream-Agrees :
    (extract : Option ProgExtract) (s₀ s : Sink) (input : Bytes) (st : Stream)
    → Agrees extract s₀ input (st, s)
    → (close_stream extract st s).1 ≡ read_all extract input s₀
unfolding close_stream read_all
close_stream-Agrees extract s₀ s input st (fits, agree) =
    let no_end : NoEnd (drop st.read_buffer_pos st.read_buffer) =
      rw (ap (λ (p : Bytes × Sink). p.0) agree) (feed_rest-NoEnd extract [] input s₀ tt) in
    ap (λ t. last_line extract (t, s))
      (c_string-NoEnd (drop st.read_buffer_pos st.read_buffer) no_end)
    ∙ ap (last_line extract) agree

-- The bytes that an event brings: none are read unless `poll` reports data.
abbrev pub arrived : FdEvent → Bytes
arrived ev = if ev.pollin then ev.chunk else []

abbrev pub all_arrived : List FdEvent → Bytes
all_arrived [] = []
all_arrived (ev ∷ evs) = arrived ev ++ all_arrived evs

-- The pipe stays open behind this event.
abbrev pub Continues : FdEvent → Type 0
Continues ev = (ev.hangup ≡ false) × ((ev.pollin ≡ true) → ev.read_end ≡ again)

-- The pipe is closed at this event, and no read of it failed.
abbrev pub Ends : FdEvent → Type 0
Ends ev =
    ((ev.pollin ≡ true) × (ev.read_end ≡ eof))
    ⊎ ((ev.hangup ≡ true) × ((ev.pollin ≡ true) → ev.read_end ≡ again))

pub process_open :
    (extract : Option ProgExtract) (ev : FdEvent) (st : Stream) (s : Sink)
    → Continues ev
    → st.done ≡ false
    → process_fd_event extract ev st s
      ≡ going (if ev.pollin then take_chunk extract ev.chunk st s else (st, s))
process_open extract ev st s (h, r) d = elim (Bool-cases ev.pollin) [
  | inl e ↦ let r' : ev.read_end ≡ again = r e in unfold process_fd_event in ground (arith, r')
  | inr e ↦ unfold process_fd_event in ground arith
]

abbrev close_pair : Option ProgExtract → Stream × Sink → Stream × Sink
close_pair extract (st, s) = close_stream extract st s

process_end :
    (extract : Option ProgExtract) (ev : FdEvent) (st : Stream) (s : Sink)
    → Ends ev
    → st.done ≡ false
    → process_fd_event extract ev st s
      ≡ going (close_pair extract (if ev.pollin then take_chunk extract ev.chunk st s else (st, s)))
process_end extract ev st s (inl (p, e)) d = unfold process_fd_event in ground arith
process_end extract ev st s (inr (h, r)) d = elim (Bool-cases ev.pollin) [
  | inl e ↦ let r' : ev.read_end ≡ again = r e in unfold process_fd_event in ground (arith, r')
  | inr e ↦ unfold process_fd_event in ground arith
]

take_chunk_open :
    (extract : Option ProgExtract) (chunk : Bytes) (st : Stream) (s : Sink)
    → (take_chunk extract chunk st s).0.done ≡ st.done
take_chunk_open extract chunk st s = rw (take_chunk_lem extract chunk st s) refl

-- One event of an open pipe, read or not.
pub arrived-Agrees :
    (extract : Option ProgExtract) (s₀ s : Sink) (input : Bytes) (ev : FdEvent) (st : Stream)
    → Agrees extract s₀ input (st, s)
    → Agrees extract s₀
        (input ++ arrived ev)
        (if ev.pollin then take_chunk extract ev.chunk st s else (st, s))
arrived-Agrees extract s₀ s input ev st a = elim (Bool-cases ev.pollin) [
  | inl e ↦ rw e (take_chunk-Agrees extract s₀ s input ev.chunk st a)
  | inr e ↦ rw (e, append-nil input) a
]

pub arrived_open :
    (extract : Option ProgExtract) (s : Sink) (ev : FdEvent) (st : Stream)
    → (if ev.pollin then take_chunk extract ev.chunk st s else (st, s)).0.done ≡ st.done
arrived_open extract s ev st = elim (Bool-cases ev.pollin) [
  | inl e ↦ rw e (take_chunk_open extract ev.chunk st s)
  | inr e ↦ rw e refl
]

-- The end of the pipe, from a state that agrees with the input so far.
pub process_end-read_all :
    (extract : Option ProgExtract) (s₀ s : Sink) (input : Bytes) (last : FdEvent) (st : Stream)
    → Ends last
    → st.done ≡ false
    → Agrees extract s₀ input (st, s)
    → (st' : Stream) × (process_fd_event extract last st s
        ≡ going (st', read_all extract (input ++ arrived last) s₀))
      × (st'.done ≡ true)
process_end-read_all extract s₀ s input last st ends d a =
    let p : Stream × Sink = if last.pollin then take_chunk extract last.chunk st s else (st, s) in
    let agree = arrived-Agrees extract s₀ s input last st a in
    let closed : (close_stream extract p.0 p.1).1 ≡ read_all extract (input ++ arrived last) s₀ =
      close_stream-Agrees extract s₀ p.1 (input ++ arrived last) p.0 agree in
    (
      (close_stream extract p.0 p.1).0,
      process_end extract last st s ends d ∙ rw (← closed) refl,
      unfold close_stream in refl,
    )

process_events-read_all :
    (extract : Option ProgExtract) (s₀ s : Sink) (input : Bytes) (evs : List FdEvent)
    (last : FdEvent) (st : Stream)
    → All Continues evs
    → Ends last
    → st.done ≡ false
    → Agrees extract s₀ input (st, s)
    → (st' : Stream) × (process_events extract (evs ++ last ∷ []) st s
        ≡ going (st', read_all extract ((input ++ all_arrived evs) ++ arrived last) s₀))
      × (st'.done ≡ true)
unfolding process_events
process_events-read_all extract s₀ s input [] last st c ends d a =
    let (st', e, closed) = process_end-read_all extract s₀ s input last st ends d a in
    (st', rw (e, append-nil input) refl, closed)
process_events-read_all extract s₀ s input (ev ∷ evs) last st (c, cs) ends d a =
    let p : Stream × Sink = if ev.pollin then take_chunk extract ev.chunk st s else (st, s) in
    let (st', e, closed) =
      process_events-read_all extract s₀ p.1 (input ++ arrived ev) evs last p.0 cs ends
        (arrived_open extract s ev st ∙ d) (arrived-Agrees extract s₀ s input ev st a) in
    (
      st',
      rw (process_open extract ev st s c d)
          (e ∙ rw (append_assoc input (arrived ev) (all_arrived evs)) refl),
      closed,
    )

-- However the output of a program is cut into pieces on its way through the pipe, the lines that the
-- extractor sees, the reports and the filtered output are those of the whole text: after any
-- events that keep the pipe open and one that closes it, the loop has ended and the sink is
-- `read_all` of all the bytes that arrived, in order.
pub process_events_lem :
    (extract : Option ProgExtract) (s : Sink) (evs : List FdEvent) (last : FdEvent)
    → All Continues evs
    → Ends last
    → (st : Stream) × (process_events extract (evs ++ last ∷ []) empty_stream s
        ≡ going (st, read_all extract (all_arrived evs ++ arrived last) s))
      × (st.done ≡ true)
process_events_lem extract s evs last c ends =
    process_events-read_all extract s s [] evs last empty_stream c ends refl
      (omega arith, unfold feed in refl)

-- The text without its NUL bytes.
abbrev pub without_nul : Bytes → Bytes
without_nul [] = []
without_nul (c ∷ s) = if c == 0 then without_nul s else c ∷ without_nul s

feed-none_step :
    (cur input : Bytes) (c : ℕ) (s : Sink)
    → feed none cur (c ∷ input) s ≡ (
        if is_end c
        then feed none [] input (record s { filtered = s.filtered ++ close_line cur c })
        else feed none (cur ++ c ∷ []) input s)
unfolding feed handle_line
feed-none_step cur input c s = refl

abbrev whole : Bytes × Sink → Bytes
whole (t, s) = s.filtered ++ t

feed-none :
    (cur input : Bytes) (s : Sink)
    → whole (feed none cur input s) ≡ s.filtered ++ (cur ++ without_nul input)
feed-none cur [] s = unfold feed in rw (append-nil cur) refl
feed-none cur (c ∷ input) s = ground (
  arith,
  feed-none_step cur input c s,
  feed-none [] input (record s { filtered = s.filtered ++ close_line cur c }),
  feed-none (cur ++ c ∷ []) input s,
  append_assoc s.filtered cur (without_nul input),
  append_assoc cur (c ∷ []) (without_nul input),
  append_assoc s.filtered (cur ++ c ∷ []) (without_nul input),
)

last_line-none : (p : Bytes × Sink) → (last_line none p).filtered ≡ whole p
unfolding handle_line
last_line-none ([], s) = sym (append-nil s.filtered)
last_line-none (c ∷ t, s) = refl

-- With no extractor the filtered output is all that was read, without NUL bytes.
pub read_all-none :
    (input : Bytes) (s : Sink) → (read_all none input s).filtered ≡ s.filtered ++ without_nul input
unfolding read_all
read_all-none input s = last_line-none (feed none [] input s) ∙ feed-none [] input s
