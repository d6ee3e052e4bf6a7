-- ===== src/Input/Roundtrip.antt =====
-- `input_consume_data` and `input_undo_consume_data` of src/input.c, one after the other.
use mathlib.Core.Option
use mathlib.Core.Path.{subst}
use colm.Prelude.{
  ℕ, ◌+◌, ◌-◌, ◌^◌, ◌≤◌, ◌<◌, ◌≡◌, ◌⊎◌, refl, sym, ap, ◌∙◌, List, [], ◌∷◌, ◌++◌, Option, some, ◌==◌,
  arith, length, length-append, take, drop, length-take, drop_all, take-append_le, take-append-drop,
  min, map, Bool-cases, inl, inr,
}
use colm.Stream.Buffers.{Location, fsm_bufsize}
use colm.Input.Seq.{
  StreamFuncs, StreamView, StreamLaws, SeqBuf, token, ignore, source, accum, InputSeq, items, ahead,
  byte,
}
use colm.Input.Data.{
  SeqConsumed, consume_stream, consume_seq, input_consume_data, undo_seq, input_undo_consume_data,
}
use colm.Input.PutBack.{
  AreFresh, IsReady, AreFresh-IsReady, IsWrap, source-IsWrap, accum-IsWrap, IsBack, put-IsBack,
  zero_of, positive_of, go-IsBack,
}
use colm.Input.Restore.{consume_seq-IsBack}

list_cases : (xs : List ℕ) → (xs ≡ []) ⊎ ((d : ℕ) × (ds : List ℕ) × (xs ≡ d ∷ ds))
list_cases [] = inl refl
list_cases (d ∷ ds) = inr (d, ds, refl)

module _ {I : Type 0} (funcs : StreamFuncs I) (view : StreamView I)
    (laws : StreamLaws funcs view) where
  -- `o` holds a queue with the text and the trees of `queue`
  record IsHeld (queue : List (SeqBuf I)) (o : Option (List (SeqBuf I) × List (SeqBuf I)))
      : Type 0 where
    left : List (SeqBuf I)
    stash : List (SeqBuf I)
    eq : o ≡ some (left, stash)
    holds : items view.holds left ≡ items view.holds queue

  -- a round of `input_consume_data` at the head, and what undoes it
  stream-IsHeld :
      (wrap : I → SeqBuf I) (s : I) (rest stash : List (SeqBuf I)) (n : ℕ) (loc : Location)
      → IsWrap funcs view laws wrap
      → view.IsValid s
      → view.consumed s + n < 2 ^ 31
      → AreFresh funcs view laws rest
      → 1 ≤ n
      → n ≤ length (view.holds s ++ ahead view.holds rest)
      → n ≤ fsm_bufsize
      → ((m : ℕ) (l : Location) (st : List (SeqBuf I))
          → 1 ≤ m
          → m ≤ length (ahead view.holds rest)
          → m ≤ n
          → IsHeld rest (
              undo_seq funcs
                (consume_seq funcs m l rest st).stash
                (take m (ahead view.holds rest))
                (consume_seq funcs m l rest st).queue))
      → IsHeld (wrap s ∷ rest) (
          undo_seq funcs
            (consume_stream funcs n loc wrap s rest stash
              (λ m l st. consume_seq funcs m l rest st)).stash
            (take n (view.holds s ++ ahead view.holds rest))
            (consume_stream funcs n loc wrap s rest stash
              (λ m l st. consume_seq funcs m l rest st)).queue)
  stream-IsHeld wrap s rest stash n loc w v room f pos fits size ih =
      let t : ℕ × Location × I = funcs.consume_data n loc s in
      let h : List ℕ = view.holds s in
      let tail : List ℕ = ahead view.holds rest in
      let s1 : I = t.2 in
      let slen : t.0 ≡ min n (length h) = laws.count_eq n loc s v in
      let rest1 : view.holds s1 ≡ drop n h = laws.rest n loc s v in
      let v1 = laws.consume-IsValid n loc s v in
      let count : view.consumed s1 ≡ view.consumed s + t.0 = laws.consumed_eq n loc s v room in
      let small : view.consumed s1 < 2 ^ 31 = omega (arith, count, slen, room) in
      let r : SeqConsumed I = consume_seq funcs (n - t.0) t.1 rest (wrap s1 ∷ stash) in
      elim (Bool-cases (n - t.0 == 0)) [
        | inl stop ↦
            let le : n ≤ length h = omega (arith, zero_of (n - t.0) stop, slen) in
            let len : length (take n h) ≡ n = length-take n h ∙ omega (arith, le) in
            let text : take n (h ++ tail) ≡ take n h = take-append_le n h tail le in
            let pb =
              put-IsBack funcs view laws wrap stash [] (take n h) s s1 rest rest w v1 small
                (omega (arith, count, slen, len, le)) (omega (arith, len, size))
                (sym (ap (λ x. take n h ++ x) rest1 ∙ take-append-drop n h)) refl in
            rw (stop, text) (record { left = pb.left; stash = stash; eq = pb.eq; holds = pb.holds })
        | inr go ↦
            let more : 1 ≤ n - t.0 = positive_of (n - t.0) go in
            let lt : length h ≤ n = omega (arith, more, slen) in
            let all : t.0 ≡ length h = omega (arith, slen, lt) in
            let enough : n - t.0 ≤ length tail = omega (arith, length-append h tail, fits, all) in
            elim (list_cases h) [
              | inl none_held ↦
                  let zero_len : length h ≡ 0 = ap length none_held in
                  let b = ih (n - t.0) t.1 (wrap s1 ∷ stash) more enough (omega arith) in
                  let text : take n (h ++ tail) ≡ take (n - t.0) tail =
                    ap (λ x. take n (x ++ tail)) none_held
                    ∙ ap (λ i. take i tail) (omega (arith, all, zero_len)) in
                  rw (go, text)
                    (record {
                      left = b.left;
                      stash = b.stash;
                      eq = b.eq;
                      holds =
                          b.holds
                          ∙ sym (
                              w.items_eq s rest
                              ∙ ap (λ x. map byte x ++ items view.holds rest) none_held);
                    })
              | inr (d, ds, e) ↦
                  let dlen : length (d ∷ ds) ≡ length h = sym (ap length e) in
                  let back =
                    consume_seq-IsBack funcs view laws (n - t.0) t.1 rest (wrap s1 ∷ stash) d ds f
                      more enough (omega (arith, dlen, all, lt, size)) in
                  let b =
                    go-IsBack funcs view laws wrap s s1 rest stash [] n tail r d ds w v1 small
                      (omega (arith, count, all)) (omega (arith, lt, size))
                      (rest1 ∙ drop_all n h lt) lt e
                      (subst
                        (λ k.
                          IsBack funcs view laws (wrap s1 ∷ stash) (d ∷ ds) rest
                            (undo_seq funcs r.stash ((d ∷ ds) ++ take k tail) r.queue))
                        (ap (λ k. n - k) all) back) in
                  rw go (record { left = b.left; stash = stash; eq = b.eq; holds = b.holds })
            ]
      ]

  consume_seq-IsHeld :
      (n : ℕ) (loc : Location) (queue stash : List (SeqBuf I))
      → IsReady funcs view laws n queue
      → 1 ≤ n
      → n ≤ length (ahead view.holds queue)
      → n ≤ fsm_bufsize
      → IsHeld queue (
          undo_seq funcs
            (consume_seq funcs n loc queue stash).stash
            (take n (ahead view.holds queue))
            (consume_seq funcs n loc queue stash).queue)
  unfolding consume_seq
  consume_seq-IsHeld n loc [] stash r pos fits size = absurd (omega (arith, pos, fits))
  consume_seq-IsHeld n loc (token t ∷ rest) stash r pos fits size =
      absurd (omega (arith, pos, fits))
  consume_seq-IsHeld n loc (ignore t ∷ rest) stash r pos fits size =
      absurd (omega (arith, pos, fits))
  consume_seq-IsHeld n loc (source s ∷ rest) stash (v, room, f) pos fits size =
      stream-IsHeld source s rest stash n loc (source-IsWrap funcs view laws) v room f pos fits size
        (λ m l st p1 f1 s1.
          consume_seq-IsHeld m l rest st
            (AreFresh-IsReady funcs view laws m rest (omega (arith, s1, size)) f) p1 f1
            (omega (arith, s1, size)))
  consume_seq-IsHeld n loc (accum s ∷ rest) stash (v, room, f) pos fits size =
      stream-IsHeld accum s rest stash n loc (accum-IsWrap funcs view laws) v room f pos fits size
        (λ m l st p1 f1 s1.
          consume_seq-IsHeld m l rest st
            (AreFresh-IsReady funcs view laws m rest (omega (arith, s1, size)) f) p1 f1
            (omega (arith, s1, size)))

  -- `o` is an input with the text and the trees of `si`
  pub record IsRestored (si : InputSeq I) (o : Option (InputSeq I)) : Type 0 where
    pub after : InputSeq I
    pub returns : o ≡ some after
    pub holds : items view.holds after.queue ≡ items view.holds si.queue

  some_text :
      (text : List ℕ) (si : InputSeq I)
      → 1 ≤ length text
      → input_undo_consume_data funcs text si
        ≡ Option.map
            (λ (r : List (SeqBuf I) × List (SeqBuf I)). record si { queue = r.0; stash = r.1 })
            (undo_seq funcs si.stash text si.queue)
  unfolding input_undo_consume_data
  some_text [] si pos = absurd (omega arith)
  some_text (c ∷ text) si pos = refl

  -- For an input over any streams that keep `StreamLaws`, well formed up to the first tree, and
  -- everywhere behind a head that is a stream, where they are untouched, too: when the input has
  -- `n` bytes ahead of the first tree, `n` is not 0 and at most the size of a buffer, and the count
  -- of the head's consumed bytes stays an `int`, then `input_undo_consume_data` of the `n` bytes
  -- that `input_consume_data` took succeeds, and the input holds the text and the trees it held,
  -- whatever streams the bytes came from.
  pub input_undo_consume_data-input_consume_data :
      (n : ℕ) (loc : Location) (si : InputSeq I)
      → IsReady funcs view laws n si.queue
      → 1 ≤ n
      → n ≤ length (ahead view.holds si.queue)
      → n ≤ fsm_bufsize
      → IsRestored si (
          input_undo_consume_data funcs
            (take n (ahead view.holds si.queue))
            (input_consume_data funcs n loc si).2)
  unfolding input_consume_data
  input_undo_consume_data-input_consume_data n loc si r pos fits size =
      let text : List ℕ = take n (ahead view.holds si.queue) in
      let h = consume_seq-IsHeld n loc si.queue si.stash r pos fits size in
      let si1 : InputSeq I = (input_consume_data funcs n loc si).2 in
      let len : length text ≡ min n (length (ahead view.holds si.queue)) =
        length-take n (ahead view.holds si.queue) in
      record {
        after = record si1 { queue = h.left; stash = h.stash };
        returns =
            some_text text si1 (omega (arith, len, pos, fits))
            ∙ ap
                (λ o.
                  Option.map
                    (λ (r : List (SeqBuf I) × List (SeqBuf I)). record si1 {
                      queue = r.0;
                      stash = r.1;
                    })
                    o)
                h.eq;
        holds = h.holds;
      }
