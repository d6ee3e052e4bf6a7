-- ===== src/Stream/Roundtrip.antt =====
-- `data_consume_data` of src/stream.c, and `data_undo_consume_data` behind it.
use colm.Prelude.{
  ℕ, ◌+◌, ◌-◌, ◌^◌, ◌≤◌, ◌<◌, ◌≡◌, refl, ap, ◌∙◌, List, ◌++◌, Option, some, arith, length, take,
  drop, min, length-take, take-append-drop,
}
use colm.Stream.Position.{long_mod, update_position}
use colm.Stream.Buffers.{fsm_bufsize, contents, IsQueue, Location}
use colm.Stream.Consume.{consume_bufs-IsConsumed}
use colm.Stream.Data.{StreamData, add_int, data_consume_data, data_undo_consume_data}
use colm.Stream.Undo.{data_undo_consume_data-IsUndone}

module _ {S : Type 0} where
  -- `r` is the result of taking `n` bytes from the front
  pub record IsTaken (n : ℕ) (sid : StreamData S) (r : ℕ × Location × StreamData S) : Type 0 where
    pub count_eq : r.0 ≡ min n (length (contents sid.queue))
    pub rest : contents r.2.queue ≡ drop n (contents sid.queue)
    pub pos_eq : r.2.pos ≡ update_position (take n (contents sid.queue)) sid.pos
    pub consumed_eq : r.2.consumed ≡ add_int sid.consumed r.0
    pub is_queue : IsQueue r.2.queue

  -- For a well-formed queue and a byte position that is a word: `data_consume_data` takes so many
  -- bytes off the front, or all there are, moves the position over them, counts them, and keeps the
  -- queue well formed.
  pub data_consume_data-IsTaken :
      (n : ℕ) (loc : Location) (sid : StreamData S)
      → IsQueue sid.queue
      → sid.pos.byte < long_mod
      → IsTaken n sid (data_consume_data n loc sid)
  unfolding data_consume_data
  data_consume_data-IsTaken n loc sid q b =
      let r = consume_bufs-IsConsumed sid.name n sid.queue sid.pos loc q b in
      record {
        count_eq = r.count_eq;
        rest = r.rest;
        pos_eq = r.pos_eq;
        consumed_eq = refl;
        is_queue = r.is_queue;
      }

  -- `o` is a result that holds what `sid` held, with so many bytes put back
  pub record IsRestored (sid : StreamData S) (count : ℕ) (o : Option (ℕ × StreamData S))
      : Type 0 where
    pub after : StreamData S
    pub returns : o ≡ some (count, after)
    pub holds : contents after.queue ≡ contents sid.queue
    pub is_queue : IsQueue after.queue

  -- For a well-formed queue, a byte position that is a word, a count of consumed bytes that stays an
  -- `int`, and at most a buffer of bytes: what `data_consume_data` took, `data_undo_consume_data`
  -- puts back, all of it, and the stream holds what it held before.
  pub data_undo_consume_data-data_consume_data :
      (n : ℕ) (loc : Location) (sid : StreamData S)
      → IsQueue sid.queue
      → sid.pos.byte < long_mod
      → sid.consumed + n < 2 ^ 31
      → n ≤ fsm_bufsize
      → IsRestored sid
          (data_consume_data n loc sid).0
          (data_undo_consume_data (take n (contents sid.queue)) (data_consume_data n loc sid).2)
  data_undo_consume_data-data_consume_data n loc sid q b lt fits =
      let t = data_consume_data-IsTaken n loc sid q b in
      let c : List ℕ = contents sid.queue in
      let len : length (take n c) ≡ min n (length c) = length-take n c in
      let s1 : StreamData S = (data_consume_data n loc sid).2 in
      let count : s1.consumed ≡ sid.consumed + (data_consume_data n loc sid).0 =
        t.consumed_eq ∙ omega (arith, t.count_eq) in
      let amount : min (length (take n c)) s1.consumed ≡ (data_consume_data n loc sid).0 =
        omega (arith, len, count, t.count_eq) in
      let undone =
        data_undo_consume_data-IsUndone (take n c) s1 t.is_queue (omega (arith, count, t.count_eq))
          (omega (arith, amount, t.count_eq)) in
      let whole : length (take n c) - min (length (take n c)) s1.consumed ≡ 0 =
        omega (arith, len, amount, t.count_eq) in
      record {
        after = undone.after;
        returns = undone.returns ∙ ap (λ a. some (a, undone.after)) amount;
        holds =
            undone.holds
            ∙ ap (λ i. drop i (take n c) ++ contents s1.queue) whole
            ∙ ap (λ x. take n c ++ x) t.rest
            ∙ take-append-drop n c;
        is_queue = undone.is_queue;
      }
