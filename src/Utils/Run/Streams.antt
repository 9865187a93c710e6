-- ===== src/Utils/Run/Streams.antt =====
-- The poll loop, with no progress extractor: it ends when both pipes are closed, and holds the whole
-- of what came through each of them.
use libblockdev.Base.{
  none, List, [], ◌∷◌, ◌++◌, Bool, true, false, ◌≡◌, refl, ap, sym, ◌∙◌, ◌⊎◌, inl, inr, arith,
  Bytes, if◌then◌else◌, append_assoc,
}
use libblockdev.Utils.Lines
use libblockdev.Utils.Lines.{
  ProgExtract, Sink, Stream, FdEvent, Round, going, process_fd_event, handle_line,
}
use libblockdev.Utils.Lines.Automaton.{feed, close_line}
use libblockdev.Utils.Lines.Chunks.{
  Continues, Ends, arrived, Agrees, read_all, read_all-none, without_nul, process_open,
  process_end-read_all, arrived-Agrees, arrived_open, empty_stream, last_line,
}
use libblockdev.Utils.Run.{
  Poll, interrupted, poll_failed, ready, Pipes, put_out, put_err, round_map, poll_round, step_out,
  step_err,
}

abbrev pub sink_of : Bytes → Sink
sink_of text = record { filtered = text; completion = 0; reports = [] }

-- With no extractor only the filtered output changes.
Plain : Sink → Type 0
Plain s = (s.completion ≡ 0) × (s.reports ≡ [])

feed-none-Plain : (cur input : Bytes) (s : Sink) → Plain s → Plain (feed none cur input s).1
unfolding feed Plain handle_line
feed-none-Plain cur [] s h = h
feed-none-Plain cur (c ∷ input) s h = ground (
  arith,
  feed-none-Plain [] input (record s { filtered = s.filtered ++ close_line cur c }) h,
  feed-none-Plain (cur ++ c ∷ []) input s h,
)

sink_of-Plain : (s : Sink) → Plain s → s ≡ sink_of s.filtered
unfolding Plain
sink_of-Plain s h = ground arith

last_line-none-Plain : (p : Bytes × Sink) → Plain p.1 → Plain (last_line none p)
unfolding Plain handle_line
last_line-none-Plain ([], s) h = h
last_line-none-Plain (c ∷ t, s) h = h

read_all_plain : (input : Bytes) → read_all none input (sink_of []) ≡ sink_of (without_nul input)
unfolding read_all Plain
read_all_plain input =
    sink_of-Plain (read_all none input (sink_of [])) (
      last_line-none-Plain (feed none [] input (sink_of []))
        (feed-none-Plain [] input (sink_of []) (refl, refl)))
    ∙ ap sink_of (read_all-none input (sink_of []))

-- The events at one descriptor bring these bytes, and then close it.
abbrev pub Feeds : List FdEvent → Bytes → Type 0
Feeds [] input = ⊥
Feeds (ev ∷ evs) input =
    (Ends ev × (input ≡ arrived ev))
    ⊎ (Continues ev × ((later : Bytes) × (input ≡ arrived ev ++ later) × Feeds evs later))

-- What is left to come, and what has come, at one descriptor; `total` is all of it.
abbrev pub StreamAt : List FdEvent → Bytes → Stream → Bytes → Type 0
StreamAt evs total st text =
    ((st.done ≡ true) × (text ≡ without_nul total))
    ⊎ ((input : Bytes) × (later : Bytes) × (st.done ≡ false)
        × (total ≡ input ++ later)
        × Agrees none (sink_of []) input (st, sink_of text)
        × Feeds evs later)

abbrev pub step_stream : FdEvent → Stream → Bytes → Round (Stream × Sink)
step_stream ev st text =
    if st.done then going (st, sink_of text) else process_fd_event none ev st (sink_of text)

step_open :
    (ev : FdEvent) (st : Stream) (text : Bytes)
    → st.done ≡ false
    → step_stream ev st text ≡ process_fd_event none ev st (sink_of text)
step_open ev st text d =
    ap (λ b. if b then going (st, sink_of text) else process_fd_event none ev st (sink_of text)) d

step_closed :
    (ev : FdEvent) (st : Stream) (text : Bytes)
    → st.done ≡ true
    → step_stream ev st text ≡ going (st, sink_of text)
step_closed ev st text d =
    ap (λ b. if b then going (st, sink_of text) else process_fd_event none ev st (sink_of text)) d

Agrees-Plain :
    (input : Bytes) (st : Stream) (s : Sink) → Agrees none (sink_of []) input (st, s) → Plain s
unfolding Plain
Agrees-Plain input st s (_, e) =
    rw (ap (λ (p : Bytes × Sink). p.1) e) (feed-none-Plain [] input (sink_of []) (refl, refl))

pub step_stream-StreamAt :
    (ev : FdEvent) (evs : List FdEvent) (total : Bytes) (st : Stream) (text : Bytes)
    → StreamAt (ev ∷ evs) total st text
    → (st' : Stream) × (text' : Bytes) × (step_stream ev st text ≡ going (st', sink_of text'))
      × StreamAt evs total st' text'
step_stream-StreamAt ev evs total st text (inl (d, e)) =
    (st, text, step_closed ev st text d, inl (d, e))
step_stream-StreamAt ev evs total st text (inr (input, later, d, t, a, inl (ends, l))) =
    let (st', e, d') = process_end-read_all none (sink_of []) (sink_of text) input ev st ends d a in
    (
      st',
      without_nul total,
      step_open ev st text d
          ∙ (e
              ∙ ap (λ s. going (st', s))
                  (read_all_plain (input ++ arrived ev)
                    ∙ ap (λ x. sink_of (without_nul x)) (ap (λ x. input ++ x) (sym l) ∙ sym t))),
      inl (d', refl),
    )
step_stream-StreamAt ev evs total st text (inr (input, later, d, t, a, inr (c, (later', l, f)))) =
    let p : Stream × Sink =
      if ev.pollin then Lines.take_chunk none ev.chunk st (sink_of text) else (st, sink_of text) in
    let agree : Agrees none (sink_of []) (input ++ arrived ev) p =
      arrived-Agrees none (sink_of []) (sink_of text) input ev st a in
    let same : p.1 ≡ sink_of p.1.filtered =
      sink_of-Plain p.1 (Agrees-Plain (input ++ arrived ev) p.0 p.1 agree) in
    (
      p.0,
      p.1.filtered,
      step_open ev st text d
          ∙ (process_open none ev st (sink_of text) c d ∙ ap (λ s. going (p.0, s)) same),
      inr (
        input ++ arrived ev,
        later',
        arrived_open none (sink_of text) ev st ∙ d,
        t ∙ (ap (λ x. input ++ x) l ∙ sym (append_assoc input (arrived ev) later')),
        rw (← same) agree,
        f,
      ),
    )

abbrev pub pipes_of : Stream → Bytes → Stream → Bytes → Pipes
pipes_of so o se e = record {
  out = so;
  out_data = o;
  err_ = se;
  err_data = e;
  completion = 0;
  percents = [];
}

-- The events at standard output, and at standard error.
abbrev pub outs : List Poll → List FdEvent
outs [] = []
outs (ready eo ee ∷ rs) = eo ∷ outs rs
outs (interrupted ∷ rs) = outs rs
outs (poll_failed why ∷ rs) = outs rs

abbrev pub errs : List Poll → List FdEvent
errs [] = []
errs (ready eo ee ∷ rs) = ee ∷ errs rs
errs (interrupted ∷ rs) = errs rs
errs (poll_failed why ∷ rs) = errs rs

abbrev pub NoFailure : List Poll → Type 0
NoFailure [] = Unit
NoFailure (poll_failed why ∷ rs) = ⊥
NoFailure (ready eo ee ∷ rs) = NoFailure rs
NoFailure (interrupted ∷ rs) = NoFailure rs

if_round_map :
    {A B : Type 0} (b : Bool) (f : A → B) (x : A) (m : Round A)
    → (if b then going (f x) else round_map f m) ≡ round_map f (if b then going x else m)
if_round_map true f x m = refl
if_round_map false f x m = refl

step_out_lem :
    (ev : FdEvent) (so : Stream) (o : Bytes) (se : Stream) (e : Bytes)
    → step_out none ev (pipes_of so o se e)
      ≡ round_map (put_out (pipes_of so o se e)) (step_stream ev so o)
unfolding step_out
step_out_lem ev so o se e =
    if_round_map so.done (put_out (pipes_of so o se e)) (so, sink_of o)
      (process_fd_event none ev so (sink_of o))

step_err_lem :
    (ev : FdEvent) (so : Stream) (o : Bytes) (se : Stream) (e : Bytes)
    → step_err none ev (pipes_of so o se e)
      ≡ round_map (put_err (pipes_of so o se e)) (step_stream ev se e)
unfolding step_err
step_err_lem ev so o se e =
    if_round_map se.done (put_err (pipes_of so o se e)) (se, sink_of e)
      (process_fd_event none ev se (sink_of e))

pub poll_ready :
    (eo ee : FdEvent) (so so' se se' : Stream) (o o' e e' : Bytes)
    → step_stream eo so o ≡ going (so', sink_of o')
    → step_stream ee se e ≡ going (se', sink_of e')
    → poll_round none (ready eo ee) (pipes_of so o se e) ≡ going (pipes_of so' o' se' e')
poll_ready eo ee so so' se se' o o' e e' ho he =
    let out : step_out none eo (pipes_of so o se e) ≡ going (pipes_of so' o' se e) =
      step_out_lem eo so o se e ∙ ap (round_map (put_out (pipes_of so o se e))) ho in
    let err_ : step_err none ee (pipes_of so' o' se e) ≡ going (pipes_of so' o' se' e') =
      step_err_lem ee so' o' se e ∙ ap (round_map (put_err (pipes_of so' o' se e))) he in
    unfold poll_round in rw (out, err_) refl

pub StreamAt-nil :
    (total : Bytes) (st : Stream) (text : Bytes)
    → StreamAt [] total st text
    → (st.done ≡ true) × (text ≡ without_nul total)
StreamAt-nil total st text (inl h) = h
StreamAt-nil total st text (inr (_, _, _, _, _, f)) = elim f [ ]

pub StreamAt-start :
    (evs : List FdEvent) (total : Bytes) → Feeds evs total → StreamAt evs total empty_stream []
StreamAt-start evs total f = inr ([], total, refl, refl, (omega arith, unfold feed in refl), f)
