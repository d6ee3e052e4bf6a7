-- ===== src/Input/DataStream.antt =====
-- The streams of src/stream.c as the streams of an input: the table `accum_funcs`, and the laws that
-- the input relies on.
use colm.Prelude.{
  ℕ, ◌<◌, ◌≡◌, refl, sym, ◌∙◌, Option, none, some, ltb, not, ◌&&◌, arith, take, Bool-cases, inl,
  inr,
}
use mathlib.Core.Path.{subst}
use colm.Stream.Position.{Position, long_mod}
use colm.Stream.Buffers.{contents, IsQueue, Location}
use colm.Stream.Consume.{update_position-byte}
use colm.Stream.Data.{
  StreamData, is_negative, data_consume_data, data_undo_consume_data, data_split_consumed,
  data_append_data, data_undo_append_data, init,
}
use colm.Stream.Read.{
  TextSource, accum_get_data_source, new_accum, new_text, new_consumed, data_get_data,
  data_get_parse_block,
}
use colm.Stream.Undo.{data_undo_consume_data-IsUndone}
use colm.Stream.Append.{data_append_data-contents, data_undo_append_data-contents}
use colm.Stream.Roundtrip.{data_consume_data-IsTaken}
use colm.Input.Seq.{StreamFuncs, StreamView, StreamLaws}

-- the name of a text: that of the location, or "<text1>"
abbrev pub text_name : ℕ → Option Location → ℕ
text_name text1 none = text1
text_name text1 (some loc) = loc.name

-- `accum_funcs`, and the streams that the input makes, under the names "<text1>", "<text2>" and
-- "<text3>"
abbrev pub accum_funcs : ℕ → ℕ → ℕ → StreamFuncs (StreamData TextSource)
accum_funcs text1 text2 text3 = record {
  get_parse_block = data_get_parse_block accum_get_data_source;
  get_data = data_get_data accum_get_data_source;
  consume_data = data_consume_data;
  undo_consume_data = data_undo_consume_data;
  split_consumed = data_split_consumed (new_consumed text3);
  append_data = data_append_data;
  undo_append_data = data_undo_append_data;
  new_text = λ loc text. new_text (text_name text1 loc) loc text;
  new_accum = new_accum text2;
}

-- the buffers are well formed and the byte position is a word
abbrev pub IsStream : StreamData TextSource → Type 0
IsStream sid = IsQueue sid.queue × (sid.pos.byte < long_mod)

data_consume_data-IsStream :
    (n : ℕ) (loc : Location) (sid : StreamData TextSource)
    → IsStream sid
    → IsStream (data_consume_data n loc sid).2
data_consume_data-IsStream n loc sid (q, b) =
    let t = data_consume_data-IsTaken n loc sid q b in
    (
      t.is_queue,
      subst (λ (p : Position). p.byte < long_mod) (sym t.pos_eq)
          (update_position-byte (take n (contents sid.queue)) sid.pos),
    )

contents-data_split_consumed :
    (text3 : ℕ) (sid : StreamData TextSource)
    → contents (data_split_consumed (new_consumed text3) sid).1.queue ≡ contents sid.queue
unfolding data_split_consumed
contents-data_split_consumed text3 sid =
    elim (Bool-cases (ltb 0 sid.consumed && not (is_negative sid.consumed))) [
      | inl c ↦ rw c refl
      | inr c ↦ rw c refl
    ]

-- A stream of src/stream.c holds what its buffers hold.
abbrev pub accum_view : StreamView (StreamData TextSource)
accum_view = record {
  holds = λ sid. contents sid.queue;
  consumed = λ sid. sid.consumed;
  IsValid = IsStream;
}

-- The streams of src/stream.c keep the laws that the input relies on, where their buffers are well
-- formed and their byte position is a word: `consume_data` takes the text off the front and counts
-- it while the count is an `int`, `undo_consume_data` puts back as many bytes as were consumed if
-- they are at most a buffer of them, `append_data` and `undo_append_data` add to and take off the
-- end, `split_consumed` changes no text, and a new stream is empty.
pub accum_funcs-StreamLaws :
    (text1 text2 text3 : ℕ) → StreamLaws (accum_funcs text1 text2 text3) accum_view
unfolding data_append_data new_accum init
accum_funcs-StreamLaws text1 text2 text3 = record {
  count_eq = λ n loc sid v. (data_consume_data-IsTaken n loc sid v.0 v.1).count_eq;
  rest = λ n loc sid v. (data_consume_data-IsTaken n loc sid v.0 v.1).rest;
  consume-IsValid = data_consume_data-IsStream;
  consumed_eq = λ n loc sid v lt.
      let t = data_consume_data-IsTaken n loc sid v.0 v.1 in
      t.consumed_eq ∙ omega (arith, t.count_eq, lt);
  undo = λ text sid v lt le.
      let u = data_undo_consume_data-IsUndone text sid v.0 lt (omega (arith, le)) in
      (u.after, u.returns, u.holds);
  append = λ text sid v. let (e, q) = data_append_data-contents text sid v.0 in (e, (q, v.1));
  undo_append = λ n sid v. let r = data_undo_append_data-contents n sid v.0 in (r.0, r.1);
  split = contents-data_split_consumed text3;
  accum_holds = refl;
  accum-IsValid = (tt, omega arith);
}
