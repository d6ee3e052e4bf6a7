-- ===== src/Input/ConsumeLaws.antt =====
-- What `input_consume_data` of src/input.c takes from a queue of streams and trees.
use colm.Prelude.{ℕ, ◌≡◌, List, ◌∷◌, ◌++◌, length, take, drop, min, map}
use colm.Input.Seq.{StreamFuncs, StreamView, StreamLaws, SeqBuf, items, ahead, byte}

module _ {I : Type 0} (funcs : StreamFuncs I) (view : StreamView I)
    (laws : StreamLaws funcs view) where
  -- `count` bytes, `n` or all there are, were taken off the front of `queue` and left `after`
  pub record IsTakenOff (n : ℕ) (queue : List (SeqBuf I)) (count : ℕ) (after : List (SeqBuf I))
      : Type 0 where
    pub count_eq : count ≡ min n (length (ahead view.holds queue))
    pub ahead_eq : ahead view.holds after ≡ drop n (ahead view.holds queue)
    pub items_eq :
        items view.holds queue
        ≡ map byte (take n (ahead view.holds queue)) ++ items view.holds after

  record IsStream (wrap : I → SeqBuf I) : Type 0 where
    wrap_items :
        (s : I) (rest : List (SeqBuf I))
        → items view.holds (wrap s ∷ rest) ≡ map byte (view.holds s) ++ items view.holds rest
    wrap_ahead :
        (s : I) (rest : List (SeqBuf I))
        → ahead view.holds (wrap s ∷ rest) ≡ view.holds s ++ ahead view.holds rest
