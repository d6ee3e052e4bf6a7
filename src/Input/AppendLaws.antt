-- ===== src/Input/AppendLaws.antt =====
-- The operations of src/input.c that add text and trees at the two ends of the queue, and what
-- undoes them.
use colm.Prelude.{ℕ, ◌≡◌, refl, ap, ◌∙◌, List, [], ◌∷◌, ◌++◌, Option, none, some, length, map}
use colm.Input.Seq.{
  StreamFuncs, StreamView, StreamLaws, SeqBuf, token, ignore, source, accum, InputSeq, items, byte,
}
use colm.Input.Trees.{split_head, maybe_split, append_data_bufs, stopped_at, undo_append_seq}

module _ {I : Type 0} (funcs : StreamFuncs I) (view : StreamView I)
    (laws : StreamLaws funcs view) where
  -- every stream of the queue is well formed
  abbrev pub AreValid : List (SeqBuf I) → Type 0
  AreValid [] = Unit
  AreValid (token t ∷ queue) = AreValid queue
  AreValid (ignore t ∷ queue) = AreValid queue
  AreValid (source s ∷ queue) = view.IsValid s × AreValid queue
  AreValid (accum s ∷ queue) = view.IsValid s × AreValid queue

  -- whichever stream splits off
  queue-split :
      (o : Option I) (queue : List (SeqBuf I)) (iis : InputSeq I)
      → InputSeq.queue {I = I} (elim o [
        | none ↦ record iis { queue = queue }
        | some off ↦ record iis { queue = queue; stash = accum off ∷ iis.stash }
      ])
        ≡ queue
  queue-split none queue iis = refl
  queue-split (some off) queue iis = refl

  items-split_head :
      (queue : List (SeqBuf I)) (iis : InputSeq I)
      → items view.holds (split_head funcs queue (record iis { queue = queue })).queue
        ≡ items view.holds queue
  unfolding split_head
  items-split_head [] iis = refl
  items-split_head (token t ∷ rest) iis = refl
  items-split_head (ignore t ∷ rest) iis = refl
  items-split_head (source s ∷ rest) iis =
      let r : Option I × I = funcs.split_consumed s in
      ap (λ q. items view.holds q)
        (queue-split r.0 (source r.1 ∷ rest) (record iis { queue = source s ∷ rest }))
      ∙ ap (λ h. map byte h ++ items view.holds rest) (laws.split s)
  items-split_head (accum s ∷ rest) iis =
      let r : Option I × I = funcs.split_consumed s in
      ap (λ q. items view.holds q)
        (queue-split r.0 (accum r.1 ∷ rest) (record iis { queue = accum s ∷ rest }))
      ∙ ap (λ h. map byte h ++ items view.holds rest) (laws.split s)

  items-maybe_split :
      (si : InputSeq I) → items view.holds (maybe_split funcs si).queue ≡ items view.holds si.queue
  unfolding maybe_split
  items-maybe_split si = items-split_head si.queue si

  -- how the loop comes back to a queue that was extended
  record IsUndone (text : List ℕ) (queue : List (SeqBuf I)) : Type 0 where
    left : List (SeqBuf I)
    stops :
        undo_append_seq funcs (length text) (append_data_bufs funcs text queue) ≡ stopped_at left
    items_eq : items view.holds left ≡ items view.holds queue
