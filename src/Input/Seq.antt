-- ===== src/Input/Seq.antt =====
-- src/input.h: `stream_funcs` as an interface, `seq_buf` and `input_impl_seq`.
use colm.Prelude.{
  ℕ, ◌+◌, ◌-◌, ◌≤◌, ◌<◌, ◌≡◌, ◌^◌, List, [], ◌∷◌, ◌++◌, Option, some, Bool, length, take, drop, min,
  map,
}
use colm.Stream.Buffers.{Location, fsm_bufsize}
use colm.Stream.Read.{Block}

-- the functions of `stream_funcs` that the input calls, on streams `I`; the number of bytes that
-- `undo_consume_data` returns is an `int`
pub record StreamFuncs (I : Type 0) : Type 0 where
  pub get_parse_block : ℕ → I → Block × ℕ × I
  pub get_data : ℕ → I → Option (List ℕ × I)
  pub consume_data : ℕ → Location → I → ℕ × Location × I
  pub undo_consume_data : List ℕ → I → Option (ℕ × I)
  pub split_consumed : I → Option I × I
  pub append_data : List ℕ → I → I
  pub undo_append_data : ℕ → I → ℕ × I
  pub new_text : Option Location → List ℕ → I
  pub new_accum : I

-- how a stream is seen: the text it holds, how many bytes of it were consumed, and whether it is
-- well formed
pub record StreamView (I : Type 0) : Type 1 where
  pub holds : I → List ℕ
  pub consumed : I → ℕ
  pub IsValid : I → Type 0

-- what the input relies on
pub record StreamLaws {I : Type 0} (funcs : StreamFuncs I) (view : StreamView I) : Type 0 where
  pub count_eq :
      (n : ℕ) (loc : Location) (s : I)
      → view.IsValid s
      → (funcs.consume_data n loc s).0 ≡ min n (length (view.holds s))
  pub rest :
      (n : ℕ) (loc : Location) (s : I)
      → view.IsValid s
      → view.holds (funcs.consume_data n loc s).2 ≡ drop n (view.holds s)
  pub consume-IsValid :
      (n : ℕ) (loc : Location) (s : I)
      → view.IsValid s
      → view.IsValid (funcs.consume_data n loc s).2
  pub consumed_eq :
      (n : ℕ) (loc : Location) (s : I)
      → view.IsValid s
      → view.consumed s + n < 2 ^ 31
      → view.consumed (funcs.consume_data n loc s).2
        ≡ view.consumed s + (funcs.consume_data n loc s).0
  pub undo :
      (text : List ℕ) (s : I)
      → view.IsValid s
      → view.consumed s < 2 ^ 31
      → min (length text) (view.consumed s) ≤ fsm_bufsize
      → (after : I) × (funcs.undo_consume_data text s
          ≡ some (min (length text) (view.consumed s), after))
        × (view.holds after
            ≡ drop (length text - min (length text) (view.consumed s)) text ++ view.holds s)
  pub append :
      (text : List ℕ) (s : I)
      → view.IsValid s
      → (view.holds (funcs.append_data text s) ≡ view.holds s ++ text)
        × view.IsValid (funcs.append_data text s)
  pub undo_append :
      (n : ℕ) (s : I)
      → view.IsValid s
      → ((funcs.undo_append_data n s).0 ≡ min n (length (view.holds s)))
        × (view.holds (funcs.undo_append_data n s).1
            ≡ take (length (view.holds s) - n) (view.holds s))
  pub split : (s : I) → view.holds (funcs.split_consumed s).1 ≡ view.holds s
  pub accum_holds : view.holds funcs.new_accum ≡ []
  pub accum-IsValid : view.IsValid funcs.new_accum

-- `struct seq_buf`, by its type. A tree is an address. A stream of type SB_ACCUM is owned.
pub data SeqBuf (I : Type 0) : Type 0 where
  token : ℕ → SeqBuf I
  ignore : ℕ → SeqBuf I
  source : I → SeqBuf I
  accum : I → SeqBuf I

-- `struct input_impl_seq`
pub record InputSeq (I : Type 0) : Type 0 where
  pub queue : List (SeqBuf I)
  pub stash : List (SeqBuf I)
  pub eof_mark : Bool

-- the pieces of text and the trees that a parser sees one after another
pub data Item : Type 0 where
  byte : ℕ → Item
  tree : ℕ → Item
  skipped : ℕ → Item

module _ {I : Type 0} (holds : I → List ℕ) where
  abbrev pub items : List (SeqBuf I) → List Item
  items [] = []
  items (token t ∷ queue) = tree t ∷ items queue
  items (ignore t ∷ queue) = skipped t ∷ items queue
  items (source s ∷ queue) = map byte (holds s) ++ items queue
  items (accum s ∷ queue) = map byte (holds s) ++ items queue

  -- the text ahead of the first tree
  abbrev pub ahead : List (SeqBuf I) → List ℕ
  ahead [] = []
  ahead (token t ∷ queue) = []
  ahead (ignore t ∷ queue) = []
  ahead (source s ∷ queue) = holds s ++ ahead queue
  ahead (accum s ∷ queue) = holds s ++ ahead queue
