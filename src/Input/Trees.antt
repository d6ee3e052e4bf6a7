-- ===== src/Input/Trees.antt =====
-- src/input.c: the queue of an input, and the operations on trees and on streams.
use mathlib.Core.Option
use colm.Prelude.{
  ℕ, ◌-◌, ◌%◌, ◌^◌, List, [], ◌∷◌, ◌++◌, Option, none, some, Bool, ◌==◌, ltb, if◌then◌else◌, length,
  take,
}
use colm.Stream.Buffers.{Location}
use colm.Input.Seq.{StreamFuncs, SeqBuf, token, ignore, source, accum, InputSeq}

-- a text whose `long` length is passed as an `int`; a negative length makes the copy faulty
abbrev pub int_text : List ℕ → Option (List ℕ)
int_text text =
    let length' : ℕ = length text % 2 ^ 32 in
    if ltb length' (2 ^ 31) then some (take length' text) else none

module _ {I : Type 0} where
  -- `input_stream_seq_pop_head`; `none` is a read through the null pointer
  unfoldable pub pop_head : InputSeq I → Option (SeqBuf I × InputSeq I)
  pop_head is = elim is.queue [ [] ↦ none | b ∷ rest ↦ some (b, record is { queue = rest }) ]

  -- `input_stream_seq_append`
  unfoldable pub append_buf : SeqBuf I → InputSeq I → InputSeq I
  append_buf b is = record is { queue = is.queue ++ b ∷ [] }

  -- the tail of the queue, and what is ahead of it
  unfoldable pub split_tail : SeqBuf I → List (SeqBuf I) → SeqBuf I × List (SeqBuf I)
  split_tail b [] = (b, [])
  split_tail b (next ∷ rest) = let (tail, init) = split_tail next rest in (tail, b ∷ init)

  -- `input_stream_seq_pop_tail`
  unfoldable pub pop_tail : InputSeq I → Option (SeqBuf I × InputSeq I)
  unfolding split_tail
  pop_tail is = elim is.queue [
    | [] ↦ none
    | b ∷ rest ↦ some ((split_tail b rest).0, record is { queue = (split_tail b rest).1 })
  ]

  -- `input_stream_seq_prepend`
  unfoldable pub prepend_buf : SeqBuf I → InputSeq I → InputSeq I
  prepend_buf b is = record is { queue = b ∷ is.queue }

  -- `input_stream_stash_head`
  unfoldable pub stash_head : SeqBuf I → InputSeq I → InputSeq I
  stash_head b si = record si { stash = b ∷ si.stash }

  -- `input_set_eof_mark`
  unfoldable pub input_set_eof_mark : Bool → InputSeq I → InputSeq I
  input_set_eof_mark eof_mark si = record si { eof_mark = eof_mark }

  -- `buf->tree`, null in a stream
  abbrev pub tree_of : SeqBuf I → Option ℕ
  tree_of (token t) = some t
  tree_of (ignore t) = some t
  tree_of (source s) = none
  tree_of (accum s) = none

  -- the loop of `input_consume_tree`: the queue and the stash
  unfoldable pub clear_streams :
      List (SeqBuf I) → List (SeqBuf I) → List (SeqBuf I) × List (SeqBuf I)
  clear_streams [] stash = ([], stash)
  clear_streams (token t ∷ rest) stash = (token t ∷ rest, stash)
  clear_streams (ignore t ∷ rest) stash = (ignore t ∷ rest, stash)
  clear_streams (source s ∷ rest) stash = clear_streams rest (source s ∷ stash)
  clear_streams (accum s ∷ rest) stash = clear_streams rest (accum s ∷ stash)

  -- `input_consume_tree` behind the loop; `none` is the assertion that there is a tree
  unfoldable pub take_tree :
      List (SeqBuf I) → List (SeqBuf I) → InputSeq I → Option (ℕ × InputSeq I)
  take_tree [] stash si = none
  take_tree (b ∷ rest) stash si =
      Option.map (λ t. (t, record si { queue = rest; stash = b ∷ stash })) (tree_of b)

  -- `input_consume_tree`
  unfoldable pub input_consume_tree : InputSeq I → Option (ℕ × InputSeq I)
  unfolding clear_streams take_tree
  input_consume_tree si =
      let (queue, stash) = clear_streams si.queue si.stash in take_tree queue stash si

  -- the loop of `input_undo_consume_tree`, where `id` reads the number of a tree's language element;
  -- `none` is an empty stash, or the assertion that the trees have the same number
  unfoldable pub unstash_tree :
      (ℕ → ℕ) → ℕ → List (SeqBuf I) → List (SeqBuf I) → Option (List (SeqBuf I) × List (SeqBuf I))
  unstash_tree id tree [] queue = none
  unstash_tree id tree (token t ∷ stash) queue =
      if id t == id tree then some (token t ∷ queue, stash) else none
  unstash_tree id tree (ignore t ∷ stash) queue =
      if id t == id tree then some (ignore t ∷ queue, stash) else none
  unstash_tree id tree (source s ∷ stash) queue = unstash_tree id tree stash (source s ∷ queue)
  unstash_tree id tree (accum s ∷ stash) queue = unstash_tree id tree stash (accum s ∷ queue)

  -- `input_undo_consume_tree`
  unfoldable pub input_undo_consume_tree : (ℕ → ℕ) → ℕ → InputSeq I → Option (InputSeq I)
  unfolding unstash_tree
  input_undo_consume_tree id tree si =
      Option.map (λ r. record si { queue = r.0; stash = r.1 })
        (unstash_tree id tree si.stash si.queue)

  -- `input_undo_prepend_tree`
  unfoldable pub input_undo_prepend_tree : InputSeq I → Option (ℕ × InputSeq I)
  unfolding pop_head
  input_undo_prepend_tree si = elim (pop_head si) [
    | none ↦ none
    | some (b, si') ↦ Option.map (λ t. (t, si')) (tree_of b)
  ]

  -- `input_undo_prepend_data` and `input_undo_prepend_stream`
  unfoldable pub input_undo_prepend_buf : InputSeq I → Option (InputSeq I)
  unfolding pop_head
  input_undo_prepend_buf si = Option.map (λ r. r.1) (pop_head si)

  -- `input_append_tree`
  unfoldable pub input_append_tree : ℕ → InputSeq I → InputSeq I
  unfolding append_buf
  input_append_tree tree si = append_buf (token tree) si

  -- `input_undo_append_tree`: the `tree` of the buffer, which is null in a stream
  unfoldable pub input_undo_append_tree : InputSeq I → Option (Option ℕ × InputSeq I)
  unfolding pop_tail
  input_undo_append_tree si = Option.map (λ r. (tree_of r.0, r.1)) (pop_tail si)

  -- `input_append_stream`
  unfoldable pub input_append_stream : I → InputSeq I → InputSeq I
  unfolding append_buf
  input_append_stream stream si = append_buf (source stream) si

  -- `input_undo_append_stream`
  unfoldable pub input_undo_append_stream : InputSeq I → Option (InputSeq I)
  unfolding pop_tail
  input_undo_append_stream si = Option.map (λ r. r.1) (pop_tail si)

-- how the loop of `input_undo_append_data` has come to a buffer from behind: it has stopped, or has
-- freed every buffer and has so many bytes left
pub data UndoneBufs (I : Type 0) : Type 0 where
  stopped_at : List (SeqBuf I) → UndoneBufs I
  all_freed : ℕ → UndoneBufs I

module _ {I : Type 0} (funcs : StreamFuncs I) where
  -- `maybe_split` at a stream, where `wrap` makes a buffer of the stream
  abbrev pub split_stream : (I → SeqBuf I) → I → List (SeqBuf I) → InputSeq I → InputSeq I
  split_stream wrap s rest iis =
      let (split_off, s') = funcs.split_consumed s in
      elim split_off [
        | none ↦ record iis { queue = wrap s' ∷ rest }
        | some off ↦ record iis { queue = wrap s' ∷ rest; stash = accum off ∷ iis.stash }
      ]

  -- `maybe_split`, for the queue of `iis`
  unfoldable pub split_head : List (SeqBuf I) → InputSeq I → InputSeq I
  split_head [] iis = iis
  split_head (token t ∷ rest) iis = iis
  split_head (ignore t ∷ rest) iis = iis
  split_head (source s ∷ rest) iis = split_stream source s rest iis
  split_head (accum s ∷ rest) iis = split_stream accum s rest iis

  unfoldable pub maybe_split : InputSeq I → InputSeq I
  unfolding split_head
  maybe_split iis = split_head iis.queue iis

  -- `input_prepend_data`
  unfoldable pub input_prepend_data : Option Location → List ℕ → InputSeq I → Option (InputSeq I)
  unfolding maybe_split prepend_buf
  input_prepend_data loc text si = elim (int_text text) [
    | none ↦ none
    | some text' ↦ some (prepend_buf (accum (funcs.new_text loc text')) (maybe_split si))
  ]

  -- `input_prepend_tree`
  unfoldable pub input_prepend_tree : ℕ → Bool → InputSeq I → InputSeq I
  unfolding maybe_split prepend_buf
  input_prepend_tree tree ignore' si =
      prepend_buf (if ignore' then ignore tree else token tree) (maybe_split si)

  -- `input_prepend_stream`
  unfoldable pub input_prepend_stream : I → InputSeq I → InputSeq I
  unfolding maybe_split prepend_buf
  input_prepend_stream stream si = prepend_buf (source stream) (maybe_split si)

  -- `input_append_data`, for the queue: a stream of type SB_ACCUM at the tail takes the text
  unfoldable pub append_data_bufs : List ℕ → List (SeqBuf I) → List (SeqBuf I)
  append_data_bufs text [] = accum (funcs.append_data text funcs.new_accum) ∷ []
  append_data_bufs text (accum s ∷ []) = accum (funcs.append_data text s) ∷ []
  append_data_bufs text (accum s ∷ b ∷ rest) = accum s ∷ append_data_bufs text (b ∷ rest)
  append_data_bufs text (source s ∷ rest) = source s ∷ append_data_bufs text rest
  append_data_bufs text (token t ∷ rest) = token t ∷ append_data_bufs text rest
  append_data_bufs text (ignore t ∷ rest) = ignore t ∷ append_data_bufs text rest

  unfoldable pub input_append_data : List ℕ → InputSeq I → Option (InputSeq I)
  unfolding append_data_bufs
  input_append_data text si = elim (int_text text) [
    | none ↦ none
    | some text' ↦ some (record si { queue = append_data_bufs text' si.queue })
  ]

  -- a round at a stream
  abbrev pub undo_append_stream : (I → SeqBuf I) → I → UndoneBufs I → UndoneBufs I
  undo_append_stream wrap s (stopped_at queue) = stopped_at (wrap s ∷ queue)
  undo_append_stream wrap s (all_freed left) =
      let (slen, s') = funcs.undo_append_data left s in
      if left - slen == 0 then stopped_at (wrap s' ∷ []) else all_freed (left - slen)

  -- a round at a tree
  abbrev pub undo_append_at_tree : SeqBuf I → UndoneBufs I → UndoneBufs I
  undo_append_at_tree b (stopped_at queue) = stopped_at (b ∷ queue)
  undo_append_at_tree b (all_freed left) = stopped_at (b ∷ [])

  unfoldable pub undo_append_seq : ℕ → List (SeqBuf I) → UndoneBufs I
  undo_append_seq length' [] = all_freed length'
  undo_append_seq length' (token t ∷ rest) =
      undo_append_at_tree (token t) (undo_append_seq length' rest)
  undo_append_seq length' (ignore t ∷ rest) =
      undo_append_at_tree (ignore t) (undo_append_seq length' rest)
  undo_append_seq length' (source s ∷ rest) =
      undo_append_stream source s (undo_append_seq length' rest)
  undo_append_seq length' (accum s ∷ rest) =
      undo_append_stream accum s (undo_append_seq length' rest)

  -- what the loop leaves of the queue
  abbrev pub queue_left : UndoneBufs I → List (SeqBuf I)
  queue_left (stopped_at queue) = queue
  queue_left (all_freed left) = []

  -- `input_undo_append_data`
  unfoldable pub input_undo_append_data : ℕ → InputSeq I → InputSeq I
  unfolding undo_append_seq
  input_undo_append_data length' si = record si {
    queue = queue_left (undo_append_seq length' si.queue);
  }
