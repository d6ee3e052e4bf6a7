-- ===== src/Input/PutBack.antt =====
-- A round of `input_undo_consume_data` of src/input.c, at a stream that was consumed in part.
use mathlib.Core.Option
use mathlib.Core.List.{append-nil, append_assoc}
use colm.Prelude.{
  ℕ, ◌+◌, ◌-◌, ◌^◌, ◌≤◌, ◌<◌, ◌≡◌, refl, sym, ap, ◌∙◌, List, [], ◌∷◌, ◌++◌, Option, none, some,
  true, false, ◌==◌, arith, length, length-append, take, drop, take_all, take-append_le,
  take-append_add, drop-append_add, min, map,
}
use colm.Stream.Buffers.{fsm_bufsize}
use colm.Stream.Data.{sub_int}
use colm.Input.Seq.{
  StreamFuncs, StreamView, StreamLaws, SeqBuf, token, ignore, source, accum, items, byte,
}
use colm.Input.Data.{SeqConsumed, undo_head, undo_seq}

pub zero_of : (a : ℕ) → (a == 0) ≡ true → a ≡ 0
zero_of a e = ground arith

pub positive_of : (a : ℕ) → (a == 0) ≡ false → 1 ≤ a
positive_of a e = ground arith

pub map-append : (xs ys : List ℕ) → map byte (xs ++ ys) ≡ map byte xs ++ map byte ys
map-append [] ys = refl
map-append (x ∷ xs) ys = ap (λ t. byte x ∷ t) (map-append xs ys)

module _ {I : Type 0} (funcs : StreamFuncs I) (view : StreamView I)
    (laws : StreamLaws funcs view) where
  -- every stream is well formed and untouched
  abbrev pub AreFresh : List (SeqBuf I) → Type 0
  AreFresh [] = Unit
  AreFresh (token t ∷ queue) = AreFresh queue
  AreFresh (ignore t ∷ queue) = AreFresh queue
  AreFresh (source s ∷ queue) = view.IsValid s × (view.consumed s ≡ 0) × AreFresh queue
  AreFresh (accum s ∷ queue) = view.IsValid s × (view.consumed s ≡ 0) × AreFresh queue

  -- the same but for the head, which may have been consumed in part; the count of `n` more bytes
  -- stays an `int`
  abbrev pub IsReady : ℕ → List (SeqBuf I) → Type 0
  IsReady n [] = Unit
  IsReady n (token t ∷ queue) = Unit
  IsReady n (ignore t ∷ queue) = Unit
  IsReady n (source s ∷ queue) = view.IsValid s × (view.consumed s + n < 2 ^ 31) × AreFresh queue
  IsReady n (accum s ∷ queue) = view.IsValid s × (view.consumed s + n < 2 ^ 31) × AreFresh queue

  pub AreFresh-IsReady :
      (n : ℕ) (queue : List (SeqBuf I)) → n < 2 ^ 31 → AreFresh queue → IsReady n queue
  AreFresh-IsReady n [] lt f = tt
  AreFresh-IsReady n (token t ∷ queue) lt f = tt
  AreFresh-IsReady n (ignore t ∷ queue) lt f = tt
  AreFresh-IsReady n (source s ∷ queue) lt (v, c, f) = (v, omega (arith, c, lt), f)
  AreFresh-IsReady n (accum s ∷ queue) lt (v, c, f) = (v, omega (arith, c, lt), f)

  -- what the loop of `input_undo_consume_data` does with text that is left
  abbrev next :
      List (SeqBuf I) → List ℕ → List (SeqBuf I) → Option (List (SeqBuf I) × List (SeqBuf I))
  next [] text queue = none
  next (b ∷ stash) text queue = undo_seq funcs stash text (b ∷ queue)

  abbrev pub step :
      List ℕ → List (SeqBuf I) → List (SeqBuf I) → Option (List (SeqBuf I) × List (SeqBuf I))
  step [] queue stash = some (queue, stash)
  step (c ∷ cs) queue stash = next stash (c ∷ cs) queue

  undo_seq-step :
      (stash : List (SeqBuf I)) (text left : List ℕ) (queue queue' : List (SeqBuf I))
      → undo_head funcs text queue ≡ some (left, queue')
      → undo_seq funcs stash text queue ≡ step left queue' stash
  unfolding undo_seq
  undo_seq-step [] text [] queue queue' e = rw (e, undo_seq) refl
  undo_seq-step [] text (c ∷ cs) queue queue' e = rw (e, undo_seq) refl
  undo_seq-step (b ∷ stash) text [] queue queue' e = rw (e, undo_seq) refl
  undo_seq-step (b ∷ stash) text (c ∷ cs) queue queue' e = rw (e, undo_seq) refl

  -- a constructor of a buffer with a stream
  pub record IsWrap (wrap : I → SeqBuf I) : Type 0 where
    pub undo_eq :
        (text : List ℕ) (s : I) (rest : List (SeqBuf I))
        → undo_head funcs text (wrap s ∷ rest)
          ≡ Option.map
              (λ (r : ℕ × I). (take (sub_int (length text) r.0) text, wrap r.1 ∷ rest))
              (funcs.undo_consume_data text s)
    pub items_eq :
        (s : I) (rest : List (SeqBuf I))
        → items view.holds (wrap s ∷ rest) ≡ map byte (view.holds s) ++ items view.holds rest

  pub source-IsWrap : IsWrap source
  unfolding undo_head
  source-IsWrap = record { undo_eq = λ text s rest. refl; items_eq = λ s rest. refl }

  pub accum-IsWrap : IsWrap accum
  unfolding undo_head
  accum-IsWrap = record { undo_eq = λ text s rest. refl; items_eq = λ s rest. refl }

  -- a round of the loop at a stream
  record IsRound (wrap : I → SeqBuf I) (text : List ℕ) (s : I) (rest : List (SeqBuf I))
      : Type 0 where
    after : I
    eq :
        undo_head funcs text (wrap s ∷ rest)
        ≡ some (take (length text - min (length text) (view.consumed s)) text, wrap after ∷ rest)
    holds :
        view.holds after
        ≡ drop (length text - min (length text) (view.consumed s)) text ++ view.holds s

  undo_head-IsRound :
      (wrap : I → SeqBuf I) (text : List ℕ) (s : I) (rest : List (SeqBuf I))
      → IsWrap wrap
      → view.IsValid s
      → view.consumed s < 2 ^ 31
      → length text ≤ fsm_bufsize
      → IsRound wrap text s rest
  undo_head-IsRound wrap text s rest w v lt le =
      let amount : ℕ = min (length text) (view.consumed s) in
      let (after, returns, holds) = laws.undo text s v lt (omega arith) in
      record {
        after = after;
        eq =
            w.undo_eq text s rest
            ∙ ap
                (λ o.
                  Option.map
                    (λ (r : ℕ × I). (take (sub_int (length text) r.0) text, wrap r.1 ∷ rest)) o)
                returns
            ∙ ap (λ i. some (take i text, wrap after ∷ rest)) (omega arith);
        holds = holds;
      }

  -- `o` has the text `pre` still to put back, in front of what `queue` held
  pub record IsBack (stash : List (SeqBuf I)) (pre : List ℕ) (queue : List (SeqBuf I))
      (o : Option (List (SeqBuf I) × List (SeqBuf I))) : Type 0 where
    pub left : List (SeqBuf I)
    pub eq : o ≡ step pre left stash
    pub holds : items view.holds left ≡ items view.holds queue

  -- a stream that was consumed by `got` gets it back
  pub put-IsBack :
      (wrap : I → SeqBuf I) (stash : List (SeqBuf I)) (pre got : List ℕ) (s s1 : I)
      (rest rest' : List (SeqBuf I))
      → IsWrap wrap
      → view.IsValid s1
      → view.consumed s1 < 2 ^ 31
      → min (length (pre ++ got)) (view.consumed s1) ≡ length got
      → length (pre ++ got) ≤ fsm_bufsize
      → view.holds s ≡ got ++ view.holds s1
      → items view.holds rest' ≡ items view.holds rest
      → IsBack stash pre (wrap s ∷ rest) (undo_seq funcs stash (pre ++ got) (wrap s1 ∷ rest'))
  put-IsBack wrap stash pre got s s1 rest rest' w v lt amount le h e =
      let round = undo_head-IsRound wrap (pre ++ got) s1 rest' w v lt le in
      let cut : length (pre ++ got) - min (length (pre ++ got)) (view.consumed s1) ≡ length pre =
        omega (arith, amount, length-append pre got) in
      let front : take (length pre) (pre ++ got) ≡ pre =
        take-append_le (length pre) pre got (omega arith)
        ∙ take_all (length pre) pre (omega arith) in
      let text : view.holds round.after ≡ view.holds s =
        round.holds
        ∙ ap (λ i. drop i (pre ++ got) ++ view.holds s1) cut
        ∙ ap (λ x. x ++ view.holds s1) (drop-append_add (length pre) 0 pre got (omega arith))
        ∙ sym h in
      record {
        left = wrap round.after ∷ rest';
        eq = undo_seq-step stash (pre ++ got) pre (wrap s1 ∷ rest') (wrap round.after ∷ rest') (
            round.eq
            ∙ ap (λ i. some (take i (pre ++ got), wrap round.after ∷ rest')) cut
            ∙ ap (λ x. some (x, wrap round.after ∷ rest')) front);
        holds =
            w.items_eq round.after rest'
            ∙ ap (λ x. map byte x ++ items view.holds rest') text
            ∙ ap (λ x. map byte (view.holds s) ++ x) e
            ∙ sym (w.items_eq s rest);
      }

  -- what undoes a round that went on to the next buffer with `r` left behind
  pub go-IsBack :
      (wrap : I → SeqBuf I) (s s1 : I) (rest stash : List (SeqBuf I)) (pre : List ℕ) (n : ℕ)
      (tail : List ℕ) (r : SeqConsumed I) (d : ℕ) (ds : List ℕ)
      → IsWrap wrap
      → view.IsValid s1
      → view.consumed s1 < 2 ^ 31
      → min (length (pre ++ view.holds s)) (view.consumed s1) ≡ length (view.holds s)
      → length (pre ++ view.holds s) ≤ fsm_bufsize
      → view.holds s1 ≡ []
      → length (view.holds s) ≤ n
      → pre ++ view.holds s ≡ d ∷ ds
      → IsBack
          (wrap s1 ∷ stash)
          (d ∷ ds)
          rest
          (undo_seq funcs r.stash ((d ∷ ds) ++ take (n - length (view.holds s)) tail) r.queue)
      → IsBack stash pre
          (wrap s ∷ rest)
          (undo_seq funcs r.stash (pre ++ take n (view.holds s ++ tail)) r.queue)
  go-IsBack wrap s s1 rest stash pre n tail r d ds w v1 lt amount size empty le e ib =
      let h : List ℕ = view.holds s in
      let m : ℕ = n - length h in
      let text : pre ++ take n (h ++ tail) ≡ (d ∷ ds) ++ take m tail =
        ap (λ x. pre ++ x) (take-append_add n m h tail (omega (arith, le)))
        ∙ sym (append_assoc pre h (take m tail))
        ∙ ap (λ x. x ++ take m tail) e in
      let pb =
        put-IsBack wrap stash pre h s s1 rest ib.left w v1 lt amount size
          (sym (append-nil h) ∙ ap (λ x. h ++ x) (sym empty)) ib.holds in
      record {
        left = pb.left;
        eq =
            ap (λ x. undo_seq funcs r.stash x r.queue) text
            ∙ ib.eq
            ∙ ap (λ x. undo_seq funcs stash x (wrap s1 ∷ ib.left)) (sym e)
            ∙ pb.eq;
        holds = pb.holds;
      }
