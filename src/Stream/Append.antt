-- ===== src/Stream/Append.antt =====
-- What `data_append_data` and `data_undo_append_data` of src/stream.c do to the end of a queue.
use colm.Prelude.{
  ℕ, ◌+◌, ◌-◌, ◌≤◌, ◌≡◌, sym, ap, ◌∙◌, List, [], ◌∷◌, ◌++◌, arith, ltb, ◌==◌, if◌then◌else◌, length,
  length-append, take, drop, min, length-take, length-drop, drop-append_le, take-append_le,
  take-append_add, take_all, drop-take, Bool-cases, inl, inr,
}
use mathlib.Core.List.{append_assoc, append-nil}
use colm.Stream.Buffers.{
  RunBuf, fsm_bufsize, new_run_buf, live, contents, avail, IsBuf, IsQueue, append_tail, Undone,
  stopped, freed, undo_append_bufs,
}
use colm.Stream.Data.{StreamData, data_append_data, after_undo, data_undo_append_data}

new-IsBuf : (text : List ℕ) → IsBuf (record (new_run_buf (length text)) { text = text })
unfolding new_run_buf
new-IsBuf text = record {
  offset_le = omega arith;
  length_le = ground arith;
  size_ge = ground arith;
}

contents-append_tail :
    (text : List ℕ) (queue : List RunBuf)
    → IsQueue queue
    → (contents (append_tail text queue) ≡ contents queue ++ text)
      × IsQueue (append_tail text queue)
unfolding append_tail new_run_buf
contents-append_tail text [] q = (append-nil text, (new-IsBuf text, tt))
contents-append_tail text (tail ∷ []) (is, q) =
    elim (Bool-cases (ltb fsm_bufsize (length text + length tail.text))) [
      | inl full ↦ rw full (
        ap (λ x. live tail ++ x) (append-nil text)
            ∙ ap (λ x. x ++ text) (sym (append-nil (live tail))),
        (is, (new-IsBuf text, tt)),
      )
      | inr fits ↦ rw fits (
        append-nil (drop tail.offset (tail.text ++ text))
            ∙ drop-append_le tail.offset tail.text text is.offset_le
            ∙ ap (λ x. x ++ text) (sym (append-nil (live tail))),
        (
          record {
            offset_le = omega (arith, is.offset_le, length-append tail.text text);
            length_le = ground (arith, length-append tail.text text, is.size_ge);
            size_ge = is.size_ge;
          },
          tt,
        ),
      )
    ]
contents-append_tail text (buf ∷ next ∷ rest) (is, q) =
    let (e, q') = contents-append_tail text (next ∷ rest) q in
    (
      ap (λ x. live buf ++ x) e ∙ sym (append_assoc (live buf) (contents (next ∷ rest)) text),
      (is, q'),
    )

-- what the loop that takes `n` bytes off leaves of the text `t`
abbrev IsCut : ℕ → List ℕ → Undone → Type 0
IsCut n t (stopped queue) =
    (n ≤ length t) × (contents queue ≡ take (length t - n) t) × IsQueue queue
IsCut n t (freed left) = n ≡ length t + left

-- the round for a buffer, after the rounds for those behind it
IsCut-buf :
    (n : ℕ) (buf : RunBuf) (t : List ℕ) (u : Undone)
    → IsBuf buf
    → IsCut n t u
    → IsCut n (live buf ++ t) (elim u [
      | stopped queue ↦ stopped (buf ∷ queue)
      | freed left ↦
          let slen : ℕ = min (avail buf) left in
          if left - slen == 0
          then stopped (record buf { text = take (length buf.text - slen) buf.text } ∷ [])
          else freed (left - slen)
    ])
IsCut-buf n buf t (stopped queue) is (le, e, q) =
    let len = length-append (live buf) t in
    (
      omega (arith, len),
      ap (λ x. live buf ++ x) e
          ∙ sym (
              take-append_add (length (live buf ++ t) - n) (length t - n) (live buf) t
                (omega (arith, len))),
      (is, q),
    )
IsCut-buf n buf t (freed left) is e =
    let len = length-append (live buf) t in
    let al : length (live buf) ≡ avail buf = length-drop buf.offset buf.text in
    let slen : ℕ = min (avail buf) left in
    let keep : ℕ = length buf.text - slen in
    let m : ℕ = avail buf - slen in
    elim (Bool-cases (left - slen == 0)) [
      | inl stop ↦
          let le : left ≤ avail buf = ground arith in
          rw stop (
            omega (arith, len, al),
            append-nil (drop buf.offset (take keep buf.text))
                ∙ drop-take buf.offset m keep buf.text (omega (arith, is.offset_le))
                ∙ sym (take-append_le m (live buf) t (omega (arith, al)))
                ∙ ap (λ i. take i (live buf ++ t)) (omega (arith, len, al, e, le)),
            (
              record {
                offset_le = omega (arith, length-take keep buf.text, is.offset_le);
                length_le = omega (arith, length-take keep buf.text, is.length_le);
                size_ge = is.size_ge;
              },
              tt,
            ),
          )
      | inr go ↦ rw go (ground (arith, len, al))
    ]

undo_append_bufs-IsCut :
    (n : ℕ) (queue : List RunBuf)
    → IsQueue queue
    → IsCut n (contents queue) (undo_append_bufs n queue)
unfolding undo_append_bufs
undo_append_bufs-IsCut n [] q = omega arith
undo_append_bufs-IsCut n (buf ∷ rest) (is, q) =
    IsCut-buf n buf (contents rest) (undo_append_bufs n rest) is (undo_append_bufs-IsCut n rest q)

module _ {S : Type 0} where
  -- For a well-formed queue: `data_append_data` puts the text behind what the stream holds and keeps
  -- the queue well formed, so that it writes within the buffers.
  pub data_append_data-contents :
      (text : List ℕ) (sid : StreamData S)
      → IsQueue sid.queue
      → (contents (data_append_data text sid).queue ≡ contents sid.queue ++ text)
        × IsQueue (data_append_data text sid).queue
  unfolding data_append_data
  data_append_data-contents text sid q = contents-append_tail text sid.queue q

  -- For a well-formed queue: `data_undo_append_data` takes so many bytes off the end, or all there
  -- are, answers how many it took, and keeps the queue well formed.
  pub data_undo_append_data-contents :
      (n : ℕ) (sid : StreamData S)
      → IsQueue sid.queue
      → ((data_undo_append_data n sid).0 ≡ min n (length (contents sid.queue)))
        × (contents (data_undo_append_data n sid).1.queue
            ≡ take (length (contents sid.queue) - n) (contents sid.queue))
        × IsQueue (data_undo_append_data n sid).1.queue
  unfolding data_undo_append_data
  data_undo_append_data-contents n sid q =
      result (undo_append_bufs n sid.queue) (undo_append_bufs-IsCut n sid.queue q)
    where
      t : List ℕ
      t = contents sid.queue

      take_none : (i : ℕ) → i ≡ 0 → [] ≡ take i t
      take_none i e = ap (λ i. take i t) (sym e)

      result :
          (u : Undone)
          → IsCut n t u
          → ((after_undo n sid u).0 ≡ min n (length t))
            × (contents (after_undo n sid u).1.queue ≡ take (length t - n) t)
            × IsQueue (after_undo n sid u).1.queue
      result (stopped queue) (le, e, is) = (omega arith, e, is)
      result (freed left) e = (omega arith, take_none (length t - n) (omega arith), tt)

  -- For a well-formed queue: to append a text and to take as many bytes off again leaves what the
  -- stream held.
  pub data_undo_append_data-data_append_data :
      (text : List ℕ) (sid : StreamData S)
      → IsQueue sid.queue
      → contents (data_undo_append_data (length text) (data_append_data text sid)).1.queue
        ≡ contents sid.queue
  data_undo_append_data-data_append_data text sid q =
      let (e, is) = data_append_data-contents text sid q in
      let c : List ℕ = contents sid.queue in
      let (count, left, is') =
        data_undo_append_data-contents (length text) (data_append_data text sid) is in
      left
      ∙ ap (λ x. take (length x - length text) x) e
      ∙ take-append_le (length (c ++ text) - length text) c text
          (omega (arith, length-append c text))
      ∙ take_all (length (c ++ text) - length text) c (omega (arith, length-append c text))
