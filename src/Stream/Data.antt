-- ===== src/Stream/Data.antt =====
-- src/stream.c, src/input.h: `stream_impl_data`, and the operations of a stream that consume, send
-- back and append.
--
-- `S` is what `get_data_source` reads from: a file, or the text of the stream. A run that would
-- write past the end of a buffer, or copy a negative number of bytes, is `none`.
use colm.Prelude.{
  ℕ, ◌+◌, ◌-◌, ◌%◌, ◌^◌, List, [], ◌∷◌, ◌++◌, Option, none, some, Bool, false, not, ◌&&◌, ltb, leb,
  if◌then◌else◌, length, take, drop, min,
}
use colm.Stream.Position.{Position, int_mod, undo_position}
use colm.Stream.Buffers.{
  RunBuf, fsm_bufsize, new_run_buf, Location, Consumed, consume_bufs, append_tail, Undone, stopped,
  freed, undo_append_bufs,
}

pub record StreamData (S : Type 0) : Type 0 where
  pub queue : List RunBuf
  pub source : S
  pub name : ℕ
  pub pos : Position
  pub consumed : ℕ

-- arithmetic on `int`, and its sign
abbrev pub add_int : ℕ → ℕ → ℕ
add_int a n = (a + n) % int_mod

abbrev pub sub_int : ℕ → ℕ → ℕ
sub_int a n = (a + (int_mod - n % int_mod)) % int_mod

abbrev pub is_negative : ℕ → Bool
is_negative a = leb (2 ^ 31) a

-- `memcpy( head->data + (head->offset - fill), end, fill )` and the new offset
abbrev pub fill_head : List ℕ → RunBuf → RunBuf
fill_head bytes head = record head {
  text = take (head.offset - length bytes) head.text ++ (bytes ++ drop head.offset head.text);
  offset = head.offset - length bytes;
}

abbrev pub head_is_read : List RunBuf → Bool
head_is_read queue = elim queue [ [] ↦ false | head ∷ rest ↦ ltb 0 head.offset ]

module _ {S : Type 0} where
  -- `si_data_init`
  unfoldable pub init : ℕ → S → StreamData S
  init name source = record {
    queue = [];
    source = source;
    name = name;
    pos = record { line = 1; column = 1; byte = 0; line_len = [] };
    consumed = 0;
  }

  -- `data_consume_data`: the number of bytes, and the location of the first, if `loc` has none
  unfoldable pub data_consume_data : ℕ → Location → StreamData S → ℕ × Location × StreamData S
  unfolding consume_bufs
  data_consume_data length' loc sid =
      let r : Consumed = consume_bufs sid.name length' sid.queue sid.pos loc in
      (
        r.count,
        r.loc,
        record sid { queue = r.queue; pos = r.pos; consumed = add_int sid.consumed r.count },
      )

  -- fill into the offset space of the head of `queue`: the stream, and how many of `amount` bytes
  -- remain
  unfoldable pub undo_into_head : List ℕ → ℕ → List RunBuf → StreamData S → StreamData S × ℕ
  undo_into_head text amount [] sid = (sid, amount)
  undo_into_head text amount (head ∷ rest) sid =
      let fill : ℕ = min amount head.offset in
      let end : List ℕ = drop (length text - fill) text in
      let after : StreamData S = record sid {
        queue = fill_head end head ∷ rest;
        pos = undo_position end sid.pos;
        consumed = sub_int sid.consumed fill;
      } in
      if ltb 0 head.offset then (after, amount - fill) else (sid, amount)

  -- put what remains into a new buffer
  unfoldable pub undo_into_new : List ℕ → ℕ → StreamData S × ℕ → Option (StreamData S)
  unfolding new_run_buf
  undo_into_new text amount (sid, remaining) =
      let end : List ℕ = take remaining (drop (length text - amount) text) in
      if ltb 0 remaining
      then if ltb fsm_bufsize remaining
        then none
        else some (record sid {
          queue = record (new_run_buf 0) { text = end } ∷ sid.queue;
          pos = undo_position end sid.pos;
          consumed = sub_int sid.consumed amount;
        })
      else some sid

  -- `data_undo_consume_data`: the number of bytes, an `int`, and the stream. A negative `consumed`
  -- makes the number negative, and the copy into the head, if there is one, faulty.
  unfoldable pub data_undo_consume_data : List ℕ → StreamData S → Option (ℕ × StreamData S)
  unfolding undo_into_head undo_into_new
  data_undo_consume_data text sid =
      if is_negative sid.consumed
      then if head_is_read sid.queue then none else some (sid.consumed, sid)
      else let amount : ℕ = min (length text) sid.consumed in
        elim (undo_into_new text amount (undo_into_head text amount sid.queue sid)) [
          | none ↦ none
          | some after ↦ some (amount, after)
        ]

  -- `data_append_data`
  unfoldable pub data_append_data : List ℕ → StreamData S → StreamData S
  unfolding append_tail
  data_append_data text sid = record sid { queue = append_tail text sid.queue }

  -- what is returned after the loop
  abbrev pub after_undo : ℕ → StreamData S → Undone → ℕ × StreamData S
  after_undo length' sid (stopped queue) = (length', record sid { queue = queue })
  after_undo length' sid (freed left) = (length' - left, record sid { queue = [] })

  -- `data_undo_append_data`, with the number of bytes that it took off
  unfoldable pub data_undo_append_data : ℕ → StreamData S → ℕ × StreamData S
  unfolding undo_append_bufs
  data_undo_append_data length' sid = after_undo length' sid (undo_append_bufs length' sid.queue)

  -- `data_split_consumed`, where `consumed_stream` is `colm_impl_consumed`
  unfoldable pub data_split_consumed :
      (ℕ → StreamData S) → StreamData S → Option (StreamData S) × StreamData S
  data_split_consumed consumed_stream sid =
      if ltb 0 sid.consumed && not (is_negative sid.consumed)
      then (some (consumed_stream sid.consumed), record sid { consumed = 0 })
      else (none, sid)
