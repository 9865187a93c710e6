-- ===== src/Utils/Lines.antt =====
-- src/utils/exec.c (bd_strchr_len_null, _process_fd_event): how the output of a running program
-- is read, cut into lines and handed to the progress extractor.
pub mod Automaton
pub mod Chunks
use mathlib.Core.Option
use libblockdev.Base.{
  ℕ, zero, suc, ◌+◌, ◌-◌, Option, none, some, List, [], ◌∷◌, ◌++◌, Bool, true, false, not, ◌&&◌,
  ◌||◌, Bytes, is_empty, if◌then◌else◌, ◌==◌, ltb, length, take, drop, Result, ok, err, GError,
  Code, exec_failed, fail, codes,
}

-- `memchr (s, c, n)` as an offset into `s`.
unfoldable pub memchr : Bytes → ℕ → Option ℕ
memchr [] c = none
memchr (x ∷ s) c = if x == c then some 0 else Option.map suc (memchr s c)

-- On two pointers that are both set the lower one is taken; otherwise the one that is set, since
-- NULL is the lowest address.
unfoldable pub nearest : Option ℕ → Option ℕ → Option ℕ
nearest (some a) (some b) = some (if ltb a b then a else b)
nearest (some a) none = some a
nearest none b = b

unfoldable pub strchr_len_null : Bytes → ℕ → Option ℕ
unfolding memchr nearest
strchr_len_null haystack needle = nearest (memchr haystack needle) (memchr haystack 0)

-- The bytes of a C string that starts here: up to the first NUL.
unfoldable pub c_string : Bytes → Bytes
c_string [] = []
c_string (c ∷ s) = let rest = c ∷ c_string s in if c == 0 then [] else rest

-- `BDUtilsProgExtract`: whether the line was a progress line, and the completion then stored.
abbrev pub ProgExtract : Type 0
ProgExtract = Bytes → ℕ → Bool × ℕ

-- What the lines go to: the filtered output, the last completion, the progress reports so far.
pub record Sink : Type 0 where
  pub filtered : Bytes
  pub completion : ℕ
  pub reports : List ℕ

-- `if (prog_extract && prog_extract (line, progress)) report; else append;`
unfoldable pub handle_line : Option ProgExtract → Bytes → Sink → Sink
handle_line none line s = record s { filtered = s.filtered ++ line }
handle_line (some extract) line s =
    let (found, completion) = extract line s.completion in
    if found
    then record s { completion = completion; reports = s.reports ++ completion ∷ [] }
    else record s { filtered = s.filtered ++ line; completion = completion }

-- One pipe: the bytes read so far, how many of them are processed, and whether it is closed.
pub record Stream : Type 0 where
  pub read_buffer : Bytes
  pub read_buffer_pos : ℕ
  pub done : Bool

-- `while ((newline_pos = bd_strchr_len_null (buf_ptr, buf_len, '\n')))`; each round takes at least
-- one byte off the unprocessed part, whose length is fuel enough.
unfoldable pub drain_lines : ℕ → Option ProgExtract → Bytes → ℕ → Sink → ℕ × Sink
unfolding strchr_len_null c_string handle_line
drain_lines zero extract buffer pos s = (pos, s)
drain_lines (suc fuel) extract buffer pos s = elim (strchr_len_null (drop pos buffer) b'\n') [
  | none ↦ (pos, s)
  | some n ↦
      drain_lines fuel extract buffer (pos + (n + 1))
        (handle_line extract (c_string (take (n + 1) (drop pos buffer))) s)
]

-- How the last `read` of a round ended.
pub data ReadEnd : Type 0 where
  eof again : ReadEnd
  read_failed : Bytes → ReadEnd

-- What `poll` and the reads that follow it find at one descriptor: the bytes of all the reads that
-- gave some, and how the last one ended.
pub record FdEvent : Type 0 where
  pub pollin : Bool
  pub hangup : Bool
  pub chunk : Bytes
  pub read_end : ReadEnd

abbrev pub is_eof : ReadEnd → Bool
is_eof eof = true
is_eof again = false
is_eof (read_failed why) = false

-- The remaining buffer, at the end of the stream.
unfoldable pub close_stream : Option ProgExtract → Stream → Sink → Stream × Sink
unfolding c_string handle_line
close_stream extract st s =
    let line = c_string (drop st.read_buffer_pos st.read_buffer) in
    (record st { done = true }, if is_empty line then s else handle_line extract line s)

-- The fresh data, by lines.
unfoldable pub take_chunk : Option ProgExtract → Bytes → Stream → Sink → Stream × Sink
unfolding drain_lines
take_chunk extract chunk st s =
    let buffer = st.read_buffer ++ chunk in
    let (pos, s') = drain_lines (length buffer) extract buffer st.read_buffer_pos s in
    if ltb st.read_buffer_pos (length buffer)
    then (record st { read_buffer = buffer; read_buffer_pos = pos }, s')
    else (record st { read_buffer = buffer }, s)

-- A step goes on, or breaks off with an error; either way with the state that it reached.
pub data Round (A : Type 0) : Type 0 where
  going : A → Round A
  broken : A → GError → Round A

module _ {A : Type 0} where
  infixl 5 ◌>>=◌
  abbrev pub ◌>>=◌ : Round A → (A → Round A) → Round A
  going a >>= f = f a
  broken a e >>= f = broken a e

-- The steps behind the reads: a read error, or the end of the stream.
unfoldable pub finish_event :
    Option ProgExtract → FdEvent → Bool → Stream × Sink → Round (Stream × Sink)
unfolding close_stream
finish_event extract ev was_read (st, s) =
    if was_read && is_eof ev.read_end || ev.hangup
    then going (close_stream extract st s)
    else going (st, s)

unfoldable pub after_read :
    Option ProgExtract → FdEvent → ReadEnd → Stream × Sink → Round (Stream × Sink)
unfolding finish_event
after_read extract ev (read_failed why) p =
    broken p (record { code = exec_failed; message = codes "Error reading from pipe: " ++ why })
after_read extract ev eof p = finish_event extract ev true p
after_read extract ev again p = finish_event extract ev true p

unfoldable pub process_fd_event :
    Option ProgExtract → FdEvent → Stream → Sink → Round (Stream × Sink)
unfolding take_chunk finish_event after_read
process_fd_event extract ev st s =
    if not st.done && ev.pollin
    then after_read extract ev ev.read_end (take_chunk extract ev.chunk st s)
    else finish_event extract ev false (st, s)
