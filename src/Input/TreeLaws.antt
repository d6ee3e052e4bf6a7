-- ===== src/Input/TreeLaws.antt =====
-- `input_consume_tree` and the operations at the tail of the queue of src/input.c, and what undoes
-- them.
use mathlib.Core.Option
use colm.Prelude.{
  ℕ, ◌≡◌, refl, ap, List, [], ◌∷◌, ◌++◌, Option, none, some, true, ◌==◌, if◌then◌else◌, arith,
}
use colm.Input.Seq.{SeqBuf, token, ignore, source, accum, InputSeq}
use colm.Input.Trees.{
  append_buf, split_tail, pop_tail, tree_of, clear_streams, take_tree, input_consume_tree,
  unstash_tree, input_undo_consume_tree, input_append_tree, input_undo_append_tree,
  input_append_stream, input_undo_append_stream,
}

eq_self : (n : ℕ) → (n == n) ≡ true
eq_self n = ground arith

module _ {I : Type 0} where
  -- the first tree of a queue
  abbrev pub first_tree : List (SeqBuf I) → Option ℕ
  first_tree [] = none
  first_tree (token t ∷ queue) = some t
  first_tree (ignore t ∷ queue) = some t
  first_tree (source s ∷ queue) = first_tree queue
  first_tree (accum s ∷ queue) = first_tree queue

  -- all buffers in order, those of the stash first
  abbrev pub tape : List (SeqBuf I) → List (SeqBuf I) → List (SeqBuf I)
  tape [] queue = queue
  tape (b ∷ stash) queue = tape stash (b ∷ queue)

  -- the tree that was taken is `first`, the buffers are `all` in the same order, and
  -- `input_undo_consume_tree` succeeds, keeps the buffers, and puts the tree where the next
  -- `input_consume_tree` takes it again
  pub record IsUndoableTree (id : ℕ → ℕ) (first : Option ℕ) (all : List (SeqBuf I))
      (r : ℕ × InputSeq I) : Type 0 where
    pub first_eq : first ≡ some r.0
    pub tape_eq : tape r.1.stash r.1.queue ≡ all
    pub after : InputSeq I
    pub returns : input_undo_consume_tree id r.0 r.1 ≡ some after
    pub after_tape : tape after.stash after.queue ≡ all
    pub again : input_consume_tree after ≡ some r

  abbrev pub IsTreeResult : (ℕ → ℕ) → Option ℕ → List (SeqBuf I) → Option (ℕ × InputSeq I) → Type 0
  IsTreeResult id first all none = first ≡ none
  IsTreeResult id first all (some r) = IsUndoableTree id first all r

  abbrev undone : InputSeq I → Option (List (SeqBuf I) × List (SeqBuf I)) → Option (InputSeq I)
  undone si o = Option.map (λ r. record si { queue = r.0; stash = r.1 }) o

  take_tree-IsTreeResult :
      (id : ℕ → ℕ) (queue stash : List (SeqBuf I)) (si : InputSeq I)
      → IsTreeResult id
          (first_tree queue)
          (tape stash queue)
          (take_tree (clear_streams queue stash).0 (clear_streams queue stash).1 si)
  unfolding take_tree clear_streams input_undo_consume_tree unstash_tree input_consume_tree
  take_tree-IsTreeResult id [] stash si = refl
  take_tree-IsTreeResult id (token t ∷ rest) stash si = record {
    first_eq = refl;
    tape_eq = refl;
    after = record si { queue = token t ∷ rest; stash = stash };
    returns =
        ap (λ c. undone si (if c then some (token t ∷ rest, stash) else none)) (eq_self (id t));
    after_tape = refl;
    again = refl;
  }
  take_tree-IsTreeResult id (ignore t ∷ rest) stash si = record {
    first_eq = refl;
    tape_eq = refl;
    after = record si { queue = ignore t ∷ rest; stash = stash };
    returns =
        ap (λ c. undone si (if c then some (ignore t ∷ rest, stash) else none)) (eq_self (id t));
    after_tape = refl;
    again = refl;
  }
  take_tree-IsTreeResult id (source s ∷ rest) stash si =
      take_tree-IsTreeResult id rest (source s ∷ stash) si
  take_tree-IsTreeResult id (accum s ∷ rest) stash si =
      take_tree-IsTreeResult id rest (accum s ∷ stash) si

  -- `input_consume_tree` fails when the queue has no tree. Else it takes the first tree of the queue
  -- and no buffer is lost or moved past another; `input_undo_consume_tree` of that tree succeeds,
  -- loses no buffer either, and a further `input_consume_tree` does what the first one did.
  pub input_consume_tree-IsTreeResult :
      (id : ℕ → ℕ) (si : InputSeq I)
      → IsTreeResult id (first_tree si.queue) (tape si.stash si.queue) (input_consume_tree si)
  unfolding input_consume_tree
  input_consume_tree-IsTreeResult id si = take_tree-IsTreeResult id si.queue si.stash si

  split_tail-append :
      (b tail : SeqBuf I) (rest : List (SeqBuf I))
      → split_tail b (rest ++ tail ∷ []) ≡ (tail, b ∷ rest)
  unfolding split_tail
  split_tail-append b tail [] = refl
  split_tail-append b tail (next ∷ rest) =
      ap (λ r. (r.0, b ∷ r.1)) (split_tail-append next tail rest)

  pop_tail-append :
      (b : SeqBuf I) (queue : List (SeqBuf I)) (si : InputSeq I)
      → pop_tail (append_buf b (record si { queue = queue }))
        ≡ some (b, record si { queue = queue })
  unfolding pop_tail append_buf split_tail
  pop_tail-append b [] si = refl
  pop_tail-append b (x ∷ rest) si =
      ap (λ r. some (r.0, record si { queue = r.1 })) (split_tail-append x b rest)

  -- A tree that was appended to an input, and then a stream, come off again, the stream first, and
  -- leave the input that was there.
  pub input_undo_append_tree-input_append_tree :
      (t : ℕ) (s : I) (si : InputSeq I)
      → (input_undo_append_stream (input_append_stream s (input_append_tree t si))
          ≡ some (input_append_tree t si))
        × (input_undo_append_tree (input_append_tree t si) ≡ some (some t, si))
  unfolding input_undo_append_tree input_append_tree input_undo_append_stream input_append_stream
  input_undo_append_tree-input_append_tree t s si = (
    ap (λ o. Option.map (λ r. r.1) o)
        (pop_tail-append (source s) (input_append_tree t si).queue (input_append_tree t si)),
    ap (λ o. Option.map (λ r. (tree_of r.0, r.1)) o) (pop_tail-append (token t) si.queue si),
  )
