-- ===== src/Utils/Run/Loop.antt =====
-- The loop over the calls of `poll`.
use libblockdev.Base.{
  none, some, List, [], ◌∷◌, Bool, true, false, ◌&&◌, ◌≡◌, refl, ◌∙◌, inl, inr, Bytes, Bool-cases,
}
use libblockdev.Utils.Lines.{Stream, FdEvent, going}
use libblockdev.Utils.Lines.Chunks.{without_nul, empty_stream}
use libblockdev.Utils.Run.{Poll, interrupted, poll_failed, ready, poll_loop, poll_round}
use libblockdev.Utils.Run.Streams.{
  StreamAt, StreamAt-nil, step_stream-StreamAt, pipes_of, outs, errs, NoFailure, poll_ready, Feeds,
  StreamAt-start,
}

abbrev both_of : Stream → Stream → Bool
both_of so se = so.done && se.done

poll_stop :
    (rs : List Poll) (so se : Stream) (o e : Bytes)
    → both_of so se ≡ true
    → poll_loop none rs (pipes_of so o se e) ≡ some (pipes_of so o se e, none)
poll_stop [] so se o e d = unfold poll_loop in rw d refl
poll_stop (r ∷ rs) so se o e d = unfold poll_loop in rw d refl

poll_next :
    (r : Poll) (rs : List Poll) (so se so' se' : Stream) (o e o' e' : Bytes)
    → both_of so se ≡ false
    → poll_round none r (pipes_of so o se e) ≡ going (pipes_of so' o' se' e')
    → poll_loop none (r ∷ rs) (pipes_of so o se e) ≡ poll_loop none rs (pipes_of so' o' se' e')
poll_next r rs so se so' se' o e o' e' d h = unfold poll_loop in rw (d, h, poll_loop) refl

StreamAt-done :
    (evs : List FdEvent) (total : Bytes) (st : Stream) (text : Bytes)
    → st.done ≡ true
    → StreamAt evs total st text
    → text ≡ without_nul total
StreamAt-done evs total st text d (inl h) = h.1
StreamAt-done evs total st text d (inr h) = cc (h.2, d)

poll_round_interrupted :
    (so se : Stream) (o e : Bytes)
    → poll_round none interrupted (pipes_of so o se e) ≡ going (pipes_of so o se e)
unfolding poll_round
poll_round_interrupted so se o e = refl

and_left : (a b : Bool) → (a && b) ≡ true → a ≡ true
and_left true b h = refl
and_left false b h = h

and_right : (a b : Bool) → (a && b) ≡ true → b ≡ true
and_right true b h = h
and_right false b h = cc

-- The outcome of the loop: both pipes closed, each with all of its text.
abbrev Finished : List Poll → Stream → Bytes → Stream → Bytes → Bytes → Bytes → Type 0
Finished polls so o se e to te =
    (so' : Stream) × (se' : Stream) × (poll_loop none polls (pipes_of so o se e)
      ≡ some (pipes_of so' (without_nul to) se' (without_nul te), none))

Finished-now :
    (polls : List Poll) (so se : Stream) (o e to te : Bytes)
    → both_of so se ≡ true
    → StreamAt (outs polls) to so o
    → StreamAt (errs polls) te se e
    → Finished polls so o se e to te
Finished-now polls so se o e to te d ho he =
    let eo : o ≡ without_nul to =
      StreamAt-done (outs polls) to so o (and_left so.done se.done d) ho in
    let ee : e ≡ without_nul te =
      StreamAt-done (errs polls) te se e (and_right so.done se.done d) he in
    (so, se, poll_stop polls so se o e d ∙ rw (eo, ee) refl)

both_closed : (a b : Bool) → a ≡ true → b ≡ true → (a && b) ≡ true
both_closed true true h k = refl
both_closed true false h k = k
both_closed false b h k = h

poll_loop-Finished :
    (polls : List Poll) (so se : Stream) (o e to te : Bytes)
    → NoFailure polls
    → StreamAt (outs polls) to so o
    → StreamAt (errs polls) te se e
    → Finished polls so o se e to te
poll_loop-Finished [] so se o e to te n ho he =
    Finished-now [] so se o e to te
      (both_closed so.done se.done (StreamAt-nil to so o ho).0 (StreamAt-nil te se e he).0) ho he
poll_loop-Finished (interrupted ∷ rs) so se o e to te n ho he = elim (Bool-cases (both_of so se)) [
  | inl d ↦ Finished-now (interrupted ∷ rs) so se o e to te d ho he
  | inr d ↦
      let (so', se', h) = poll_loop-Finished rs so se o e to te n ho he in
      (
        so',
        se',
        poll_next interrupted rs so se so se o e o e d (poll_round_interrupted so se o e) ∙ h,
      )
]
poll_loop-Finished (poll_failed why ∷ rs) so se o e to te n ho he = elim n [ ]
poll_loop-Finished (ready eo ee ∷ rs) so se o e to te n ho he = elim (Bool-cases (both_of so se)) [
  | inl d ↦ Finished-now (ready eo ee ∷ rs) so se o e to te d ho he
  | inr d ↦
      let (so₁, o₁, stepped_o, ho₁) = step_stream-StreamAt eo (outs rs) to so o ho in
      let (se₁, e₁, stepped_e, he₁) = step_stream-StreamAt ee (errs rs) te se e he in
      let (so', se', h) = poll_loop-Finished rs so₁ se₁ o₁ e₁ to te n ho₁ he₁ in
      (
        so',
        se',
        poll_next (ready eo ee) rs so se so₁ se₁ o e o₁ e₁ d
              (poll_ready eo ee so so₁ se se₁ o o₁ e e₁ stepped_o stepped_e)
            ∙ h,
      )
]

-- The loop ends, whatever order the two pipes bring their pieces in, and each of them gives all of its
-- text, without the NUL bytes.
pub poll_loop_lem :
    (polls : List Poll) (out err_ : Bytes)
    → NoFailure polls
    → Feeds (outs polls) out
    → Feeds (errs polls) err_
    → Finished polls empty_stream [] empty_stream [] out err_
poll_loop_lem polls out err_ n fo fe =
    poll_loop-Finished polls empty_stream empty_stream [] [] out err_ n
      (StreamAt-start (outs polls) out fo) (StreamAt-start (errs polls) err_ fe)
