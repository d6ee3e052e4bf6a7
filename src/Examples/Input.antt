-- ===== src/Examples/Input.antt =====
-- The input of src/input.c over the streams of src/stream.c, on a few bytes and trees.
use colm.Prelude.{ℕ, ◌≡◌, refl, List, [], ◌∷◌, none, some, false, true, arith}
use colm.Stream.Buffers.{Location}
use colm.Stream.Data.{StreamData, data_append_data}
use colm.Stream.Read.{
  data_get_parse_block, TextSource, new_text, data_get_data, accum_get_data_source,
}
use colm.Input.Seq.{StreamFuncs, StreamLaws, token, source, accum, InputSeq, byte}
use mathlib.Core.Option
use colm.Input.Data.{
  data_block, tree_ahead, input_get_parse_block, input_get_data, input_consume_data,
  input_undo_consume_data,
}
use colm.Input.Trees.{
  input_consume_tree, maybe_split, input_prepend_tree, input_undo_prepend_tree, input_prepend_data,
  input_undo_prepend_buf,
}
use colm.Input.TreeLaws.{tape, IsTreeResult, input_consume_tree-IsTreeResult}
use colm.Input.Roundtrip.{IsRestored, input_undo_consume_data-input_consume_data}
use colm.Input.DataStream.{accum_funcs, accum_view, IsStream, accum_funcs-StreamLaws}

abbrev funcs : StreamFuncs (StreamData TextSource)
funcs = accum_funcs 1 2 3

-- a stream that holds a text, with some bytes before it consumed
abbrev stream : List ℕ → ℕ → StreamData TextSource
stream text consumed = record {
  queue = record { text = text; offset = 0; size = 8192 } ∷ [];
  source = record { text = []; dlen = 0; offset = 0 };
  name = 1;
  pos = record { line = 1; column = 1; byte = 0; line_len = [] };
  consumed = consumed;
}

-- "ab", then "cd", then a tree
abbrev mixed : InputSeq (StreamData TextSource)
mixed = record {
  queue = source (stream (97 ∷ 98 ∷ []) 4) ∷ accum (stream (99 ∷ 100 ∷ []) 0) ∷ token 5 ∷ [];
  stash = [];
  eof_mark = false;
}

abbrev no_loc : Location
no_loc = record { name = 0; line = 0; column = 0; byte = 0 }

ab-IsStream : IsStream (stream (97 ∷ 98 ∷ []) 4)
ab-IsStream = (
  (record { offset_le = omega arith; length_le = omega arith; size_ge = omega arith }, tt),
  omega arith,
)

cd-IsStream : IsStream (stream (99 ∷ 100 ∷ []) 0)
cd-IsStream = (
  (record { offset_le = omega arith; length_le = omega arith; size_ge = omega arith }, tt),
  omega arith,
)

-- three bytes, from both streams
input_undo_consume_data-input_consume_data_example :
    IsRestored funcs accum_view (accum_funcs-StreamLaws 1 2 3) mixed (
      input_undo_consume_data funcs (97 ∷ 98 ∷ 99 ∷ []) (input_consume_data funcs 3 no_loc mixed).2)
input_undo_consume_data-input_consume_data_example =
    input_undo_consume_data-input_consume_data funcs accum_view (accum_funcs-StreamLaws 1 2 3) 3
      no_loc mixed (ab-IsStream, omega arith, (cd-IsStream, refl, tt)) (omega arith) (omega arith)
      (omega arith)

input_consume_tree-IsTreeResult_example :
    IsTreeResult (λ t. t) (some 5) (tape mixed.stash mixed.queue) (input_consume_tree mixed)
input_consume_tree-IsTreeResult_example = input_consume_tree-IsTreeResult (λ t. t) mixed

-- a text and a tree that were put ahead come off again
prepended_off :
    (Option.map
        (λ (si : InputSeq (StreamData TextSource)). input_undo_prepend_buf si)
        (input_prepend_data funcs none (120 ∷ []) mixed)
      ≡ some (some (maybe_split funcs mixed)))
    × (input_undo_prepend_tree (input_prepend_tree funcs 6 true mixed)
        ≡ some (6, maybe_split funcs mixed))
unfolding input_prepend_data input_undo_prepend_buf input_prepend_tree input_undo_prepend_tree
prepended_off = (refl, refl)

accum_funcs-StreamLaws_example : StreamLaws funcs accum_view
accum_funcs-StreamLaws_example = accum_funcs-StreamLaws 1 2 3

-- A text that was put ahead of an input lies in the source of its stream, and a text that is
-- appended to this stream in its buffers, which are read first.
append_behind_text :
    (r : List ℕ × StreamData TextSource) × (data_get_data accum_get_data_source 4
        (data_append_data (99 ∷ 100 ∷ []) (new_text 1 none (97 ∷ 98 ∷ [])))
      ≡ some r)
    × (r.0 ≡ 99 ∷ 100 ∷ 97 ∷ 98 ∷ [])
unfolding data_get_data accum_get_data_source data_append_data new_text
append_behind_text = (_, refl, refl)

-- three bytes of two streams
get_mixed :
    Option.map
      (λ (r : List ℕ × InputSeq (StreamData TextSource)). r.0)
      (input_get_data funcs 3 mixed)
    ≡ some (97 ∷ 98 ∷ 99 ∷ [])
unfolding input_get_data data_get_data accum_get_data_source
get_mixed = refl

-- behind the first stream, and behind all text
block_mixed :
    ((input_get_parse_block funcs 3 mixed).0 ≡ data_block (100 ∷ []))
    × ((input_get_parse_block funcs 4 mixed).0 ≡ tree_ahead)
unfolding input_get_parse_block data_get_parse_block accum_get_data_source
block_mixed = (refl, refl)
