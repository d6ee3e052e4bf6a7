-- ===== src/Examples/Stream.antt =====
-- The streams of src/stream.c on a few bytes.
use colm.Prelude.{
  ℕ, ◌-◌, ◌≤◌, ◌≡◌, refl, List, [], ◌∷◌, none, some, arith, ltb, if◌then◌else◌, length, length-take,
  take, drop, replicate,
}
use colm.Stream.Position.{Position, update_position, undo_position}
use colm.Stream.Buffers.{RunBuf, contents, IsQueue, Location}
use colm.Stream.Data.{StreamData, data_consume_data, data_undo_consume_data, data_undo_append_data}
use colm.Stream.Append.{data_undo_append_data-contents}
use colm.Stream.Undo.{IsUndone, data_undo_consume_data-IsUndone}
use colm.Stream.Read.{TextSource, accum_get_data_source, data_get_data, data_get_parse_block}
use colm.Stream.Peek.{IsShown, data_get_data-IsShown, Answers, data_get_parse_block-Answers}
use colm.Stream.Roundtrip.{
  IsTaken, data_consume_data-IsTaken, IsRestored, data_undo_consume_data-data_consume_data,
}

abbrev start : Position
start = record { line = 1; column = 1; byte = 0; line_len = [] }

-- two lines
abbrev two_lines : List ℕ
two_lines = 97 ∷ 98 ∷ 10 ∷ 99 ∷ 10 ∷ []

-- The text is walked forwards, so that the column is that of another line afterwards.
undo_position_column : (undo_position two_lines (update_position two_lines start)).column ≡ 3
unfolding undo_position update_position
undo_position_column = refl

abbrev buf_of : List ℕ → ℕ → RunBuf
buf_of text offset = record { text = text; offset = offset; size = 8192 }

-- "abc", of which "a" is read, and "de"; the source has "fg"
abbrev small : StreamData TextSource
small = record {
  queue = buf_of (97 ∷ 98 ∷ 99 ∷ []) 1 ∷ buf_of (100 ∷ 101 ∷ []) 0 ∷ [];
  source = record { text = 102 ∷ 103 ∷ []; dlen = 2; offset = 0 };
  name = 7;
  pos = record { line = 1; column = 2; byte = 1; line_len = [] };
  consumed = 1;
}

small-IsQueue : IsQueue small.queue
small-IsQueue = (
  record { offset_le = omega arith; length_le = omega arith; size_ge = omega arith },
  (record { offset_le = omega arith; length_le = omega arith; size_ge = omega arith }, tt),
)

abbrev no_loc : Location
no_loc = record { name = 0; line = 0; column = 0; byte = 0 }

data_consume_data-IsTaken_example : IsTaken 3 small (data_consume_data 3 no_loc small)
data_consume_data-IsTaken_example =
    data_consume_data-IsTaken 3 no_loc small small-IsQueue (omega arith)

consume_small :
    ((data_consume_data 3 no_loc small).0 ≡ 3)
    × (contents (data_consume_data 3 no_loc small).2.queue ≡ 101 ∷ [])
    × ((data_consume_data 3 no_loc small).1.column ≡ 2)
unfolding data_consume_data update_position
consume_small = (refl, refl, refl)

data_undo_consume_data-data_consume_data_example :
    IsRestored small
      (data_consume_data 3 no_loc small).0
      (data_undo_consume_data (take 3 (contents small.queue)) (data_consume_data 3 no_loc small).2)
data_undo_consume_data-data_consume_data_example =
    data_undo_consume_data-data_consume_data 3 no_loc small small-IsQueue (omega arith)
      (omega arith) (omega arith)

data_undo_consume_data-IsUndone_example :
    IsUndone (120 ∷ 121 ∷ []) 1 small (data_undo_consume_data (120 ∷ 121 ∷ []) small)
data_undo_consume_data-IsUndone_example =
    data_undo_consume_data-IsUndone (120 ∷ 121 ∷ []) small small-IsQueue (omega arith) (omega arith)

-- nothing in memory, and a long text that was consumed
abbrev long : StreamData TextSource
long = record small { queue = []; consumed = 9000 }

abbrev long_text : List ℕ
long_text = replicate 9000 97

-- more than a buffer of it is put back past the end of the new buffer
undo_long : data_undo_consume_data long_text long ≡ none
unfolding data_undo_consume_data
undo_long = refl

data_undo_append_data-contents_example :
    ((data_undo_append_data 3 small).0 ≡ 3)
    × (contents (data_undo_append_data 3 small).1.queue ≡ 98 ∷ [])
    × IsQueue (data_undo_append_data 3 small).1.queue
data_undo_append_data-contents_example = data_undo_append_data-contents 3 small small-IsQueue

-- the text of a stream is given in parts no larger than asked for
accum_get_data_source_le : (n : ℕ) (si : TextSource) → length (accum_get_data_source n si).0 ≤ n
unfolding accum_get_data_source
accum_get_data_source_le n si =
    let avail : ℕ = si.dlen - si.offset in
    let amount : ℕ = if ltb avail n then avail else n in
    let le : amount ≤ n = ground arith in
    omega (arith, length-take amount (drop si.offset si.text), le)

data_get_data-IsShown_example :
    IsShown accum_get_data_source accum_get_data_source_le 6 small
      (data_get_data accum_get_data_source 6 small)
data_get_data-IsShown_example =
    data_get_data-IsShown accum_get_data_source accum_get_data_source_le 6 small small-IsQueue

data_get_parse_block-Answers_example :
    ((data_get_parse_block accum_get_data_source 3 small).1 ≡ 0)
    × IsQueue (data_get_parse_block accum_get_data_source 3 small).2.queue
    × Answers accum_get_data_source accum_get_data_source_le 3 small
        (data_get_parse_block accum_get_data_source 3 small).0
        (data_get_parse_block accum_get_data_source 3 small).2
data_get_parse_block-Answers_example =
    data_get_parse_block-Answers accum_get_data_source accum_get_data_source_le 3 small
      small-IsQueue (omega arith)

-- the bytes in memory and those of the source
get_small :
    (r : List ℕ × StreamData TextSource) × (data_get_data accum_get_data_source 6 small ≡ some r)
    × (r.0 ≡ 98 ∷ 99 ∷ 100 ∷ 101 ∷ 102 ∷ 103 ∷ [])
unfolding data_get_data accum_get_data_source
get_small = (_, refl, refl)
