-- ===== src/Stream/Buffers.antt =====
-- src/stream.c, src/input.h: `run_buf`, and the loops that walk over a queue of them.
--
-- `data` holds the bytes of a buffer up to its `length`, and `size` is the number of bytes that
-- `new_run_buf` allocated. A queue is the list of its buffers from the head on.
use colm.Prelude.{
  ℕ, ◌+◌, ◌-◌, ◌≤◌, List, [], ◌∷◌, ◌++◌, ◌==◌, ltb, if◌then◌else◌, length, take, drop, min,
}
use colm.Stream.Position.{Position, update_position}

abbrev pub fsm_bufsize : ℕ
fsm_bufsize = 8192

pub record RunBuf : Type 0 where
  pub text : List ℕ
  pub offset : ℕ
  pub size : ℕ

-- `new_run_buf`
unfoldable pub new_run_buf : ℕ → RunBuf
new_run_buf sz = record {
  text = [];
  offset = 0;
  size = if ltb fsm_bufsize sz then sz else fsm_bufsize;
}

-- what a reader has not seen of a buffer, and of a queue
abbrev pub live : RunBuf → List ℕ
live buf = drop buf.offset buf.text

abbrev pub contents : List RunBuf → List ℕ
contents [] = []
contents (buf ∷ queue) = live buf ++ contents queue

-- `buf->length - buf->offset`
abbrev pub avail : RunBuf → ℕ
avail buf = length buf.text - buf.offset

-- the offset lies within the text, the text within the buffer, and it has at least the usual size
pub record IsBuf (buf : RunBuf) : Type 0 where
  pub offset_le : buf.offset ≤ length buf.text
  pub length_le : length buf.text ≤ buf.size
  pub size_ge : fsm_bufsize ≤ buf.size

abbrev pub IsQueue : List RunBuf → Type 0
IsQueue [] = Unit
IsQueue (buf ∷ queue) = IsBuf buf × IsQueue queue

-- `location_t`, where a name is an address
pub record Location : Type 0 where
  pub name : ℕ
  pub line : ℕ
  pub column : ℕ
  pub byte : ℕ

-- `data_transfer_loc`
abbrev pub transfer_loc : ℕ → Position → Location
transfer_loc name ss = record { name = name; line = ss.line; column = ss.column; byte = ss.byte }

-- `if ( !loc_set( loc ) ) data_transfer_loc( prg, loc, sid );`
abbrev pub set_loc : ℕ → Position → Location → Location
set_loc name ss loc = if loc.line == 0 then transfer_loc name ss else loc

-- what the loop of `data_consume_data` leaves
pub record Consumed : Type 0 where
  pub count : ℕ
  pub queue : List RunBuf
  pub pos : Position
  pub loc : Location

-- the loop of `data_consume_data`
-- (`slen` is an `int`, which the counter of `update_position_data` reaches without overflow)
unfoldable pub consume_bufs : ℕ → ℕ → List RunBuf → Position → Location → Consumed
consume_bufs name remaining [] pos loc = record { count = 0; queue = []; pos = pos; loc = loc }
consume_bufs name remaining (buf ∷ rest) pos loc =
    let some' = ltb 0 (avail buf) in
    let slen : ℕ = min (avail buf) remaining in
    let loc' : Location = if some' then set_loc name pos loc else loc in
    let pos' : Position = if some' then update_position (take slen (live buf)) pos else pos in
    let buf' : RunBuf = record buf { offset = buf.offset + slen } in
    let more : Consumed = consume_bufs name (remaining - slen) rest pos' loc' in
    if remaining - slen == 0
    then record { count = slen; queue = buf' ∷ rest; pos = pos'; loc = loc' }
    else record more { count = slen + more.count }

-- the search for the tail and its use in `data_append_data`
unfoldable pub append_tail : List ℕ → List RunBuf → List RunBuf
unfolding new_run_buf
append_tail text [] = record (new_run_buf (length text)) { text = text } ∷ []
append_tail text (tail ∷ []) =
    if ltb fsm_bufsize (length text + length tail.text)
    then tail ∷ record (new_run_buf (length text)) { text = text } ∷ []
    else record tail { text = tail.text ++ text } ∷ []
append_tail text (buf ∷ next ∷ rest) = buf ∷ append_tail text (next ∷ rest)

-- how the loop of `data_undo_append_data` has come to a buffer from behind: it has stopped, or has
-- freed every buffer and has so many bytes left
pub data Undone : Type 0 where
  stopped : List RunBuf → Undone
  freed : ℕ → Undone

unfoldable pub undo_append_bufs : ℕ → List RunBuf → Undone
undo_append_bufs remaining [] = freed remaining
undo_append_bufs remaining (buf ∷ rest) = elim (undo_append_bufs remaining rest) [
  | stopped queue ↦ stopped (buf ∷ queue)
  | freed left ↦
      let slen : ℕ = min (avail buf) left in
      if left - slen == 0
      then stopped (record buf { text = take (length buf.text - slen) buf.text } ∷ [])
      else freed (left - slen)
]
