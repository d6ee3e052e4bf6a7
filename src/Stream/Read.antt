-- ===== src/Stream/Read.antt =====
-- src/stream.c: `data_get_data` and `data_get_parse_block`, which look at the text ahead and fetch
-- more of it where the queue ends, and the source of the streams over a text.
--
-- `get_data_source` of a file calls `fread`, so the source is a parameter: the bytes that it puts
-- into a buffer when it is asked for at most so many, and what is left of it.
use mathlib.Core.Option
use colm.Prelude.{
  ℕ, zero, suc, ◌+◌, ◌-◌, List, [], ◌∷◌, ◌++◌, Option, none, some, ◌==◌, ltb, leb, ◌&&◌,
  if◌then◌else◌, length, take, drop, min,
}
use colm.Stream.Position.{Position}
use colm.Stream.Buffers.{Location, RunBuf, fsm_bufsize, new_run_buf, live, avail}
use colm.Stream.Data.{StreamData, init}

-- the part of `stream_impl_data` that `accum_get_data_source` reads: `data`, `dlen` and `offset`
pub record TextSource : Type 0 where
  pub text : List ℕ
  pub dlen : ℕ
  pub offset : ℕ

-- `accum_get_data_source`
unfoldable pub accum_get_data_source : ℕ → TextSource → List ℕ × TextSource
accum_get_data_source want si =
    let avail' : ℕ = si.dlen - si.offset in
    let amount : ℕ = if ltb avail' want then avail' else want in
    (take amount (drop si.offset si.text), record si { offset = si.offset + amount })

-- `colm_impl_new_accum`
unfoldable pub new_accum : ℕ → StreamData TextSource
unfolding init
new_accum name = init name (record { text = []; dlen = 0; offset = 0 })

-- the position of a location, if there is one
abbrev pub loc_position : Option Location → Position → Position
loc_position none pos = pos
loc_position (some loc) pos = record pos { line = loc.line; column = loc.column; byte = loc.byte }

-- `colm_impl_new_text`
unfoldable pub new_text : ℕ → Option Location → List ℕ → StreamData TextSource
unfolding init
new_text name loc text =
    let si : StreamData TextSource =
      init name (record { text = text; dlen = length text; offset = 0 }) in
    record si { pos = loc_position loc si.pos }

-- `colm_impl_consumed`
unfoldable pub new_consumed : ℕ → ℕ → StreamData TextSource
unfolding init
new_consumed name len = record (init name (record { text = []; dlen = len; offset = len })) {
  consumed = len;
}

-- what the walk over the buffers at hand has copied, and whether it has come to their end with so
-- many bytes still wanted
pub data Walked : Type 0 where
  copied : List ℕ → Walked
  ran_out : List ℕ → ℕ → Walked

abbrev pub behind : List ℕ → Walked → Walked
behind xs (copied ys) = copied (xs ++ ys)
behind xs (ran_out ys left) = ran_out (xs ++ ys) left

-- the loop of `data_get_data` in the buffers at hand
unfoldable pub copy_bufs : ℕ → List RunBuf → Walked
copy_bufs length' [] = ran_out [] length'
copy_bufs length' (buf ∷ rest) =
    let slen : ℕ = min (avail buf) length' in
    let more : Walked = copy_bufs (length' - slen) rest in
    if length' - slen == 0
    then copied (take slen (live buf))
    else behind (take slen (live buf)) more

-- where `data_get_parse_block` has come to: a block, or the end with so many bytes to skip
pub data Found : Type 0 where
  block : List ℕ → Found
  at_end : ℕ → Found

-- its loop in the buffers at hand
unfoldable pub skip_bufs : ℕ → List RunBuf → Found
skip_bufs skip [] = at_end skip
skip_bufs skip (buf ∷ rest) =
    let further : Found = skip_bufs (skip - avail buf) rest in
    if ltb 0 (avail buf)
    then if ltb 0 skip && leb (avail buf) skip then further else block (drop skip (live buf))
    else further

-- the results INPUT_DATA with the block, and INPUT_EOD
pub data Block : Type 0 where
  input_data : List ℕ → Block
  input_eod : Block

-- a new buffer for the bytes that were received
abbrev pub received_buf : List ℕ → RunBuf
received_buf bytes = record (new_run_buf 0) { text = bytes }

module _ {S : Type 0} (get_data_source : ℕ → S → List ℕ × S) where
  -- the rounds of `data_get_data` that fetch, for so many bytes; `none` is a loop that has not
  -- ended in so many rounds
  unfoldable pub fetch : ℕ → ℕ → S → Option (List ℕ × List RunBuf × S)
  fetch zero length' source = none
  fetch (suc f) length' source =
      let (bytes, source') = get_data_source fsm_bufsize source in
      let slen : ℕ = min (length bytes) length' in
      let more = fetch f (length' - slen) source' in
      if length bytes == 0
      then some ([], [], source')
      else if length' - slen == 0
      then some (take slen bytes, received_buf bytes ∷ [], source')
      else Option.map (λ m. (take slen bytes ++ m.0, received_buf bytes ∷ m.1, m.2)) more

  -- `data_get_data` behind the buffers at hand; each round that fetches gets a byte, so that one
  -- more than are wanted are enough
  unfoldable pub fetch_rest : Walked → StreamData S → Option (List ℕ × StreamData S)
  unfolding fetch
  fetch_rest (copied bytes) ss = some (bytes, ss)
  fetch_rest (ran_out bytes left) ss =
      Option.map (λ m. (bytes ++ m.0, record ss { queue = ss.queue ++ m.1; source = m.2 }))
        (fetch (suc left) left ss.source)

  -- `data_get_data`
  unfoldable pub data_get_data : ℕ → StreamData S → Option (List ℕ × StreamData S)
  unfolding copy_bufs fetch_rest
  data_get_data length' ss = fetch_rest (copy_bufs length' ss.queue) ss

  -- `data_get_parse_block` behind the buffers at hand: the result, `*pskip`, and the stream
  unfoldable pub fetch_block : Found → StreamData S → Block × ℕ × StreamData S
  fetch_block (block bytes) ss = (input_data bytes, 0, ss)
  fetch_block (at_end left) ss =
      let (bytes, source') = get_data_source fsm_bufsize ss.source in
      let after : StreamData S = record ss {
        queue = ss.queue ++ received_buf bytes ∷ [];
        source = source';
      } in
      if length bytes == 0
      then (input_eod, left, record ss { source = source' })
      else (input_data bytes, left, after)

  -- `data_get_parse_block`
  unfoldable pub data_get_parse_block : ℕ → StreamData S → Block × ℕ × StreamData S
  unfolding skip_bufs fetch_block
  data_get_parse_block skip ss = fetch_block (skip_bufs skip ss.queue) ss
