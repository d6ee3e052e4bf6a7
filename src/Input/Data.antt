-- ===== src/Input/Data.antt =====
-- src/input.c: the operations of the input on text.
use mathlib.Core.Option
use colm.Prelude.{
  ℕ, ◌+◌, ◌-◌, List, [], ◌∷◌, ◌++◌, Option, none, some, Bool, ◌==◌, if◌then◌else◌, length, take,
}
use colm.Stream.Buffers.{Location}
use colm.Stream.Data.{sub_int}
use colm.Stream.Read.{input_data, input_eod}
use colm.Input.Seq.{StreamFuncs, SeqBuf, token, ignore, source, accum, InputSeq}

-- the results of `input_get_parse_block`
pub data InputBlock : Type 0 where
  data_block : List ℕ → InputBlock
  end_of_data end_of_file tree_ahead ignore_ahead : InputBlock

-- what the loop of `input_consume_data` leaves: the number of bytes, the location, the queue and
-- the stash
pub record SeqConsumed (I : Type 0) : Type 0 where
  pub count : ℕ
  pub loc : Location
  pub queue : List (SeqBuf I)
  pub stash : List (SeqBuf I)

module _ {I : Type 0} (funcs : StreamFuncs I) where
  -- the loop of `input_get_parse_block`: the result, `*pskip`, and the queue
  unfoldable pub parse_block_bufs : Bool → ℕ → List (SeqBuf I) → InputBlock × ℕ × List (SeqBuf I)
  parse_block_bufs eof_mark skip [] = (if eof_mark then end_of_file else end_of_data, skip, [])
  parse_block_bufs eof_mark skip (token t ∷ rest) = (tree_ahead, skip, token t ∷ rest)
  parse_block_bufs eof_mark skip (ignore t ∷ rest) = (ignore_ahead, skip, ignore t ∷ rest)
  parse_block_bufs eof_mark skip (source s ∷ rest) =
      let (type, left, s') = funcs.get_parse_block skip s in
      let (type', left', rest') = parse_block_bufs eof_mark left rest in
      elim type [
        | input_eod ↦ (type', left', source s' ∷ rest')
        | input_data bytes ↦ (data_block bytes, left, source s' ∷ rest)
      ]
  parse_block_bufs eof_mark skip (accum s ∷ rest) =
      let (type, left, s') = funcs.get_parse_block skip s in
      let (type', left', rest') = parse_block_bufs eof_mark left rest in
      elim type [
        | input_eod ↦ (type', left', accum s' ∷ rest')
        | input_data bytes ↦ (data_block bytes, left, accum s' ∷ rest)
      ]

  -- `input_get_parse_block`
  unfoldable pub input_get_parse_block : ℕ → InputSeq I → InputBlock × ℕ × InputSeq I
  unfolding parse_block_bufs
  input_get_parse_block skip is =
      let (type, left, queue) = parse_block_bufs is.eof_mark skip is.queue in
      (type, left, record is { queue = queue })

  -- a round of `input_get_data` at a stream, where `wrap` makes a buffer of the stream
  abbrev pub get_data_stream :
      ℕ
      → (I → SeqBuf I)
      → I
      → List (SeqBuf I)
      → (ℕ → Option (List ℕ × List (SeqBuf I)))
      → Option (List ℕ × List (SeqBuf I))
  get_data_stream length' wrap s rest next = elim (funcs.get_data length' s) [
    | none ↦ none
    | some (bytes, s') ↦
        let left : ℕ = length' - length bytes in
        let more =
          Option.map (λ (r : List ℕ × List (SeqBuf I)). (bytes ++ r.0, wrap s' ∷ r.1))
            (next left) in
        if length bytes == 0 then more else if left == 0 then some (bytes, wrap s' ∷ rest) else more
  ]

  -- the loop of `input_get_data`: the bytes, and the queue, whose streams may have fetched
  unfoldable pub get_data_bufs : ℕ → List (SeqBuf I) → Option (List ℕ × List (SeqBuf I))
  get_data_bufs length' [] = some ([], [])
  get_data_bufs length' (token t ∷ rest) = some ([], token t ∷ rest)
  get_data_bufs length' (ignore t ∷ rest) = some ([], ignore t ∷ rest)
  get_data_bufs length' (source s ∷ rest) =
      get_data_stream length' source s rest (λ n. get_data_bufs n rest)
  get_data_bufs length' (accum s ∷ rest) =
      get_data_stream length' accum s rest (λ n. get_data_bufs n rest)

  -- `input_get_data`
  unfoldable pub input_get_data : ℕ → InputSeq I → Option (List ℕ × InputSeq I)
  unfolding get_data_bufs
  input_get_data length' is =
      Option.map (λ r. (r.0, record is { queue = r.1 })) (get_data_bufs length' is.queue)

  -- a round of `input_consume_data` at a stream, where `wrap` makes a buffer of the stream
  abbrev pub consume_stream :
      ℕ
      → Location
      → (I → SeqBuf I)
      → I
      → List (SeqBuf I)
      → List (SeqBuf I)
      → (ℕ → Location → List (SeqBuf I) → SeqConsumed I)
      → SeqConsumed I
  consume_stream length' loc wrap s rest stash next =
      let (slen, loc', s') = funcs.consume_data length' loc s in
      let more : SeqConsumed I = next (length' - slen) loc' (wrap s' ∷ stash) in
      if length' - slen == 0
      then record { count = slen; loc = loc'; queue = wrap s' ∷ rest; stash = stash }
      else record more { count = slen + more.count }

  -- the loop of `input_consume_data`
  unfoldable pub consume_seq : ℕ → Location → List (SeqBuf I) → List (SeqBuf I) → SeqConsumed I
  consume_seq length' loc [] stash = record { count = 0; loc = loc; queue = []; stash = stash }
  consume_seq length' loc (token t ∷ rest) stash = record {
    count = 0;
    loc = loc;
    queue = token t ∷ rest;
    stash = stash;
  }
  consume_seq length' loc (ignore t ∷ rest) stash = record {
    count = 0;
    loc = loc;
    queue = ignore t ∷ rest;
    stash = stash;
  }
  consume_seq length' loc (source s ∷ rest) stash =
      consume_stream length' loc source s rest stash (λ n l st. consume_seq n l rest st)
  consume_seq length' loc (accum s ∷ rest) stash =
      consume_stream length' loc accum s rest stash (λ n l st. consume_seq n l rest st)

  -- `input_consume_data`
  unfoldable pub input_consume_data : ℕ → Location → InputSeq I → ℕ × Location × InputSeq I
  unfolding consume_seq
  input_consume_data length' loc si =
      let r : SeqConsumed I = consume_seq length' loc si.queue si.stash in
      (r.count, r.loc, record si { queue = r.queue; stash = r.stash })

  -- a round of `input_undo_consume_data` at the head of the queue: the text that remains, a front
  -- of the text, and the queue; `none` is a read through the null pointer or a fault of the stream
  unfoldable pub undo_head : List ℕ → List (SeqBuf I) → Option (List ℕ × List (SeqBuf I))
  undo_head text [] = none
  undo_head text (token t ∷ rest) = some (text, token t ∷ rest)
  undo_head text (ignore t ∷ rest) = some (text, ignore t ∷ rest)
  undo_head text (source s ∷ rest) =
      Option.map (λ r. (take (sub_int (length text) r.0) text, source r.1 ∷ rest))
        (funcs.undo_consume_data text s)
  undo_head text (accum s ∷ rest) =
      Option.map (λ r. (take (sub_int (length text) r.0) text, accum r.1 ∷ rest))
        (funcs.undo_consume_data text s)

  -- the loop: the queue and the stash. Text remains in every round, so that the test for the end
  -- may stand behind the trees, too.
  unfoldable pub undo_seq :
      List (SeqBuf I) → List ℕ → List (SeqBuf I) → Option (List (SeqBuf I) × List (SeqBuf I))
  unfolding undo_head
  undo_seq [] text queue = elim (undo_head text queue) [
    | none ↦ none
    | some (left, queue') ↦ elim left [ [] ↦ some (queue', []) | c ∷ cs ↦ none ]
  ]
  undo_seq (b ∷ stash) text queue = elim (undo_head text queue) [
    | none ↦ none
    | some (left, queue') ↦ elim left [
      | [] ↦ some (queue', b ∷ stash)
      | c ∷ cs ↦ undo_seq stash (c ∷ cs) (b ∷ queue')
    ]
  ]

  -- `input_undo_consume_data`, which asserts that there is text
  unfoldable pub input_undo_consume_data : List ℕ → InputSeq I → Option (InputSeq I)
  unfolding undo_seq
  input_undo_consume_data [] si = none
  input_undo_consume_data (c ∷ text) si =
      Option.map (λ r. record si { queue = r.0; stash = r.1 })
        (undo_seq si.stash (c ∷ text) si.queue)
