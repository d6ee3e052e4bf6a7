-- ===== src/Input/Restore.antt =====
-- `input_undo_consume_data` of src/input.c behind `input_consume_data`, in a queue of streams.
use mathlib.Core.Path.{subst}
use colm.Prelude.{
  ℕ, ◌+◌, ◌-◌, ◌≤◌, ◌≡◌, refl, sym, ap, ◌∙◌, List, [], ◌∷◌, ◌++◌, ◌==◌, arith, length,
  length-append, take, drop, length-take, drop_all, take-append_le, take-append-drop, min,
  Bool-cases, inl, inr,
}
use colm.Stream.Buffers.{Location, fsm_bufsize}
use colm.Input.Seq.{
  StreamFuncs, StreamView, StreamLaws, SeqBuf, token, ignore, source, accum, ahead,
}
use colm.Input.Data.{SeqConsumed, consume_stream, consume_seq, undo_seq}
use colm.Input.PutBack.{
  AreFresh, IsWrap, IsBack, put-IsBack, go-IsBack, source-IsWrap, accum-IsWrap, zero_of,
  positive_of,
}

module _ {I : Type 0} (funcs : StreamFuncs I) (view : StreamView I)
    (laws : StreamLaws funcs view) where
  -- a round of `input_consume_data` at an untouched stream, and of what undoes it
  stream-IsBack :
      (wrap : I → SeqBuf I) (s : I) (rest stash : List (SeqBuf I)) (c : ℕ) (cs : List ℕ) (n : ℕ)
      (loc : Location) (tail : List ℕ) (more : ℕ → Location → List (SeqBuf I) → SeqConsumed I)
      → IsWrap funcs view laws wrap
      → view.IsValid s
      → view.consumed s ≡ 0
      → 1 ≤ n
      → n ≤ length (view.holds s ++ tail)
      → length (c ∷ cs) + n ≤ fsm_bufsize
      → ((m : ℕ) (l : Location) (st : List (SeqBuf I)) (d : ℕ) (ds : List ℕ)
          → 1 ≤ m
          → m ≤ length tail
          → length (d ∷ ds) + m ≤ fsm_bufsize
          → IsBack funcs view laws st
              (d ∷ ds)
              rest
              (undo_seq funcs (more m l st).stash ((d ∷ ds) ++ take m tail) (more m l st).queue))
      → IsBack funcs view laws stash (c ∷ cs) (wrap s ∷ rest) (
          undo_seq funcs
            (consume_stream funcs n loc wrap s rest stash more).stash
            ((c ∷ cs) ++ take n (view.holds s ++ tail))
            (consume_stream funcs n loc wrap s rest stash more).queue)
  stream-IsBack wrap s rest stash c cs n loc tail more w v fresh pos fits size ih =
      let t : ℕ × Location × I = funcs.consume_data n loc s in
      let h : List ℕ = view.holds s in
      let s1 : I = t.2 in
      let slen : t.0 ≡ min n (length h) = laws.count_eq n loc s v in
      let rest1 : view.holds s1 ≡ drop n h = laws.rest n loc s v in
      let v1 = laws.consume-IsValid n loc s v in
      let count : view.consumed s1 ≡ t.0 =
        laws.consumed_eq n loc s v (omega (arith, fresh, size)) ∙ omega (arith, fresh) in
      elim (Bool-cases (n - t.0 == 0)) [
        | inl stop ↦
            let le : n ≤ length h = omega (arith, zero_of (n - t.0) stop, slen) in
            let len : length (take n h) ≡ n = length-take n h ∙ omega (arith, le) in
            let text : take n (h ++ tail) ≡ take n h = take-append_le n h tail le in
            let whole : length ((c ∷ cs) ++ take n h) ≡ length (c ∷ cs) + n =
              length-append (c ∷ cs) (take n h) ∙ omega (arith, len) in
            rw (stop, text)
              (put-IsBack funcs view laws wrap stash (c ∷ cs) (take n h) s s1 rest rest w v1
                (omega (arith, count, slen, size)) (omega (arith, whole, count, slen, len, le))
                (omega (arith, whole, size))
                (sym (ap (λ x. take n h ++ x) rest1 ∙ take-append-drop n h)) refl)
        | inr go ↦
            let lt : length h ≤ n = omega (arith, positive_of (n - t.0) go, slen) in
            let all : t.0 ≡ length h = omega (arith, slen, lt) in
            let m_eq : n - t.0 ≡ n - length h = omega (arith, all) in
            let whole : length ((c ∷ cs) ++ h) ≡ length (c ∷ cs) + length h =
              length-append (c ∷ cs) h in
            let both : length (h ++ tail) ≡ length h + length tail = length-append h tail in
            let next_size : length ((c ∷ cs) ++ h) + (n - t.0) ≤ fsm_bufsize =
              omega (arith, whole, size, all, lt) in
            let r : SeqConsumed I = more (n - t.0) t.1 (wrap s1 ∷ stash) in
            rw go (
              go-IsBack funcs view laws wrap s s1 rest stash (c ∷ cs) n tail r c (cs ++ h) w v1
                (omega (arith, count, slen, size)) (omega (arith, whole, count, all))
                (omega (arith, next_size)) (rest1 ∙ drop_all n h lt) lt refl
                (subst
                  (λ k.
                    IsBack funcs view laws (wrap s1 ∷ stash) (c ∷ (cs ++ h)) rest
                      (undo_seq funcs r.stash ((c ∷ (cs ++ h)) ++ take k tail) r.queue))
                  m_eq
                  (ih (n - t.0) t.1 (wrap s1 ∷ stash) c (cs ++ h) (positive_of (n - t.0) go)
                    (omega (arith, both, fits, all)) next_size)))
      ]

  -- from an untouched queue, behind text that was taken from the buffers before it
  pub consume_seq-IsBack :
      (n : ℕ) (loc : Location) (queue stash : List (SeqBuf I)) (c : ℕ) (cs : List ℕ)
      → AreFresh funcs view laws queue
      → 1 ≤ n
      → n ≤ length (ahead view.holds queue)
      → length (c ∷ cs) + n ≤ fsm_bufsize
      → IsBack funcs view laws stash (c ∷ cs) queue (
          undo_seq funcs
            (consume_seq funcs n loc queue stash).stash
            ((c ∷ cs) ++ take n (ahead view.holds queue))
            (consume_seq funcs n loc queue stash).queue)
  unfolding consume_seq
  consume_seq-IsBack n loc [] stash c cs f pos fits size = absurd (omega (arith, pos, fits))
  consume_seq-IsBack n loc (token t ∷ rest) stash c cs f pos fits size =
      absurd (omega (arith, pos, fits))
  consume_seq-IsBack n loc (ignore t ∷ rest) stash c cs f pos fits size =
      absurd (omega (arith, pos, fits))
  consume_seq-IsBack n loc (source s ∷ rest) stash c cs (v, fresh, f) pos fits size =
      stream-IsBack source s rest stash c cs n loc (ahead view.holds rest)
        (λ m l st. consume_seq funcs m l rest st) (source-IsWrap funcs view laws) v fresh pos fits
        size (λ m l st d ds p1 f1 s1. consume_seq-IsBack m l rest st d ds f p1 f1 s1)
  consume_seq-IsBack n loc (accum s ∷ rest) stash c cs (v, fresh, f) pos fits size =
      stream-IsBack accum s rest stash c cs n loc (ahead view.holds rest)
        (λ m l st. consume_seq funcs m l rest st) (accum-IsWrap funcs view laws) v fresh pos fits
        size (λ m l st d ds p1 f1 s1. consume_seq-IsBack m l rest st d ds f p1 f1 s1)
