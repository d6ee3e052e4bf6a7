-- ===== src/Stream/Undo.antt =====
-- What `data_undo_consume_data` of src/stream.c puts back.
use mathlib.Core.Path.{subst}
use colm.Prelude.{
  ℕ, zero, suc, ◌-◌, ◌^◌, ◌≤◌, ◌<◌, ◌≡◌, refl, sym, ap, ◌∙◌, List, [], ◌∷◌, ◌++◌, Option, some,
  true, false, arith, ltb, if◌then◌else◌, length, length-append, take, drop, min, length-take,
  length-drop, drop-append_add, take-append-drop, drop-drop, drop_all, Bool-cases, inl, inr,
}
use mathlib.Core.List.{append_assoc}
use colm.Stream.Position.{int_mod, undo_position}
use colm.Stream.Buffers.{RunBuf, fsm_bufsize, new_run_buf, live, contents, IsBuf, IsQueue}
use colm.Stream.Data.{
  StreamData, sub_int, is_negative, fill_head, undo_into_head, undo_into_new,
  data_undo_consume_data,
}

-- the offset space of the head
abbrev pub space : List RunBuf → ℕ
space [] = 0
space (head ∷ rest) = head.offset

live-fill_head :
    (bytes : List ℕ) (head : RunBuf)
    → IsBuf head
    → length bytes ≤ head.offset
    → live (fill_head bytes head) ≡ bytes ++ live head
live-fill_head bytes head is le =
    drop-append_add (head.offset - length bytes) 0 (take (head.offset - length bytes) head.text)
      (bytes ++ live head)
      (omega (arith, length-take (head.offset - length bytes) head.text, is.offset_le))

length-fill_head :
    (bytes : List ℕ) (head : RunBuf)
    → IsBuf head
    → length bytes ≤ head.offset
    → length (fill_head bytes head).text ≡ length head.text
length-fill_head bytes head is le =
    let k : ℕ = head.offset - length bytes in
    omega (
      arith,
      length-append (take k head.text) (bytes ++ live head),
      length-append bytes (live head),
      length-take k head.text,
      length-drop head.offset head.text,
      is.offset_le,
    )

fill_head-IsBuf :
    (bytes : List ℕ) (head : RunBuf)
    → IsBuf head
    → length bytes ≤ head.offset
    → IsBuf (fill_head bytes head)
fill_head-IsBuf bytes head is le =
    let e = length-fill_head bytes head is le in
    record {
      offset_le = omega (arith, e, is.offset_le);
      length_le = omega (arith, e, is.length_le);
      size_ge = is.size_ge;
    }

module _ {S : Type 0} where
  -- the last bytes go into the offset space of the head, as many as it has room for
  pub record IsFilled (text : List ℕ) (amount : ℕ) (queue : List RunBuf) (consumed : ℕ)
      (after : StreamData S) (left : ℕ) : Type 0 where
    pub left_eq : left ≡ amount - space queue
    pub holds :
        contents after.queue ≡ drop (length text - min amount (space queue)) text ++ contents queue
    pub is_queue : IsQueue after.queue
    pub consumed_eq : after.consumed ≡ sub_int consumed (min amount (space queue))

  undo_into_head-IsFilled :
      (text : List ℕ) (amount : ℕ) (queue : List RunBuf) (sid : StreamData S)
      → sid.queue ≡ queue
      → IsQueue queue
      → sid.consumed < int_mod
      → amount ≤ length text
      → IsFilled text amount queue sid.consumed
          (undo_into_head text amount queue sid).0
          (undo_into_head text amount queue sid).1
  unfolding undo_into_head
  undo_into_head-IsFilled text amount [] sid e q lt le = record {
    left_eq = omega arith;
    holds =
        ap contents e
        ∙ ap (λ x. x ++ []) (sym (drop_all (length text - min amount 0) text (omega arith)));
    is_queue = subst IsQueue (sym e) tt;
    consumed_eq = omega arith;
  }
  undo_into_head-IsFilled text amount (head ∷ rest) sid e (is, q) lt le =
      let fill : ℕ = min amount head.offset in
      let end : List ℕ = drop (length text - fill) text in
      let len : length end ≡ fill = omega (arith, length-drop (length text - fill) text) in
      elim (Bool-cases (ltb 0 head.offset)) [
        | inl some' ↦ rw some' (record {
          left_eq = omega arith;
          holds =
              ap (λ x. x ++ contents rest) (live-fill_head end head is (omega (arith, len)))
              ∙ append_assoc end (live head) (contents rest);
          is_queue = (fill_head-IsBuf end head is (omega (arith, len)), q);
          consumed_eq = refl;
        })
        | inr empty ↦
            let zero' : head.offset ≡ 0 = ground arith in
            let none' : end ≡ [] = drop_all (length text - fill) text (omega arith) in
            rw empty (record {
              left_eq = omega arith;
              holds = ap contents e ∙ ap (λ x. x ++ (live head ++ contents rest)) (sym none');
              is_queue = subst IsQueue (sym e) (is, q);
              consumed_eq = omega arith;
            })
      ]

  -- what remains goes into a new buffer, if it fits in one
  pub record IsPlaced (text : List ℕ) (amount : ℕ) (sid : StreamData S) (left : ℕ)
      (o : Option (StreamData S)) : Type 0 where
    pub after : StreamData S
    pub returns : o ≡ some after
    pub holds :
        contents after.queue ≡ take left (drop (length text - amount) text) ++ contents sid.queue
    pub is_queue : IsQueue after.queue
    pub consumed_eq :
        after.consumed ≡ (if ltb 0 left then sub_int sid.consumed amount else sid.consumed)

  undo_into_new-IsPlaced :
      (text : List ℕ) (amount left : ℕ) (sid : StreamData S)
      → IsQueue sid.queue
      → left ≤ fsm_bufsize
      → IsPlaced text amount sid left (undo_into_new text amount (sid, left))
  unfolding undo_into_new new_run_buf
  undo_into_new-IsPlaced text amount zero sid q le = record {
    after = sid;
    returns = refl;
    holds = refl;
    is_queue = q;
    consumed_eq = refl;
  }
  undo_into_new-IsPlaced text amount (suc n) sid q le =
      let end : List ℕ = take (suc n) (drop (length text - amount) text) in
      let fits : ltb fsm_bufsize (suc n) ≡ false = ground arith in
      let some' : ltb 0 (suc n) ≡ true = ground arith in
      record {
        after = record sid {
          queue = record (new_run_buf 0) { text = end } ∷ sid.queue;
          pos = undo_position end sid.pos;
          consumed = sub_int sid.consumed amount;
        };
        returns = rw (some', fits) refl;
        holds = refl;
        is_queue = (
          record {
            offset_le = omega arith;
            length_le = omega (arith, length-take (suc n) (drop (length text - amount) text));
            size_ge = omega arith;
          },
          q,
        );
        consumed_eq = rw some' refl;
      }

  -- `o` is a result that has put back the last `amount` bytes of `text`
  pub record IsUndone (text : List ℕ) (amount : ℕ) (sid : StreamData S)
      (o : Option (ℕ × StreamData S)) : Type 0 where
    pub after : StreamData S
    pub returns : o ≡ some (amount, after)
    pub holds : contents after.queue ≡ drop (length text - amount) text ++ contents sid.queue
    pub is_queue : IsQueue after.queue
    pub consumed_eq : after.consumed ≡ (
        if ltb (space sid.queue) amount
        then sub_int (sub_int sid.consumed (space sid.queue)) amount
        else sub_int sid.consumed amount)

  -- For a stream with a well-formed queue of which no negative number of bytes is consumed:
  -- `data_undo_consume_data` puts back as many bytes as were consumed, or the whole text if that is
  -- shorter, the last ones of the text, if those that do not fit into the offset space of the head
  -- are at most the size of a buffer. The queue stays well formed. The number of consumed bytes
  -- goes down by the number put back, and by the offset space once more if the bytes do not all fit
  -- there.
  pub data_undo_consume_data-IsUndone :
      (text : List ℕ) (sid : StreamData S)
      → IsQueue sid.queue
      → sid.consumed < 2 ^ 31
      → min (length text) sid.consumed - space sid.queue ≤ fsm_bufsize
      → IsUndone text (min (length text) sid.consumed) sid (data_undo_consume_data text sid)
  unfolding data_undo_consume_data
  data_undo_consume_data-IsUndone text sid q lt fits =
      let amount : ℕ = min (length text) sid.consumed in
      let f =
        undo_into_head-IsFilled text amount sid.queue sid refl q (omega arith) (omega arith) in
      let (s1, left) = undo_into_head text amount sid.queue sid in
      let p = undo_into_new-IsPlaced text amount left s1 f.is_queue (omega (arith, f.left_eq)) in
      let positive : is_negative sid.consumed ≡ false = ground arith in
      let fill : ℕ = min amount (space sid.queue) in
      let cut : drop left (drop (length text - amount) text) ≡ drop (length text - fill) text =
        drop-drop left (length text - amount) (length text - fill) text
          (omega (arith, f.left_eq)) in
      rw positive (record {
        after = p.after;
        returns = rw p.returns refl;
        holds =
            p.holds
            ∙ ap (λ x. take left (drop (length text - amount) text) ++ x)
                (f.holds ∙ ap (λ x. x ++ contents sid.queue) (sym cut))
            ∙ sym (
                append_assoc (take left (drop (length text - amount) text))
                  (drop left (drop (length text - amount) text)) (contents sid.queue))
            ∙ ap (λ x. x ++ contents sid.queue)
                (take-append-drop left (drop (length text - amount) text));
        is_queue = p.is_queue;
        consumed_eq = ground (arith, p.consumed_eq, f.consumed_eq, f.left_eq);
      })
