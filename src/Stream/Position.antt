-- ===== src/Stream/Position.antt =====
-- src/stream.c: `stream_impl_push_line`, `stream_impl_pop_line`, `update_position_data` and
-- `undo_position_data`.
use colm.Prelude.{
  ℕ, ◌+◌, ◌-◌, ◌%◌, ◌^◌, List, [], ◌∷◌, Option, none, some, ◌==◌, leb, if◌then◌else◌, length,
}

-- the words of `long` and of `int`
abbrev pub long_mod : ℕ
long_mod = 2 ^ 64

abbrev pub int_mod : ℕ
int_mod = 2 ^ 32

abbrev pub add_long : ℕ → ℕ → ℕ
add_long a n = (a + n) % long_mod

abbrev pub sub_long : ℕ → ℕ → ℕ
sub_long a n = (a + (long_mod - n % long_mod)) % long_mod

-- a `long` as an `int`, and back with its sign
abbrev pub to_int : ℕ → ℕ
to_int a = a % int_mod

abbrev pub of_int : ℕ → ℕ
of_int a = if leb (2 ^ 31) a then a + (long_mod - int_mod) else a

-- the members of `stream_impl_data` for the position; `line_len` is the array up to `lines_cur`,
-- its last element first
pub record Position : Type 0 where
  pub line : ℕ
  pub column : ℕ
  pub byte : ℕ
  pub line_len : List ℕ

-- `stream_impl_push_line`, whose array grows as needed
unfoldable pub push_line : ℕ → Position → Position
push_line ll ss = record ss { line_len = to_int ll ∷ ss.line_len }

-- `stream_impl_pop_line`, the length and the stack that is left
unfoldable pub pop_line : List ℕ → ℕ × List ℕ
pop_line [] = (0, [])
pop_line (len ∷ lens) = (of_int len, lens)

-- a round of `update_position_data`; 10 is '\n'
unfoldable pub update_char : ℕ → Position → Position
unfolding push_line
update_char c is =
    if c == 10
    then record (push_line is.column is) { line = add_long is.line 1; column = 1 }
    else record is { column = add_long is.column 1 }

-- the loop, for a text of which the counter counts all characters: fewer than 2^31
unfoldable pub update_chars : List ℕ → Position → Position
unfolding update_char
update_chars [] is = is
update_chars (c ∷ text) is = update_chars text (update_char c is)

-- `update_position_data` for a length that is an `int`, as all its callers pass
unfoldable pub update_position : List ℕ → Position → Position
unfolding update_chars
update_position text is =
    let after : Position = update_chars text is in
    record after { byte = add_long after.byte (length text) }

-- the loop with its counter, an `int`, whose increment may overflow
unfoldable pub update_loop : ℕ → List ℕ → Position → Option Position
unfolding update_char
update_loop i [] is = some is
update_loop i (c ∷ text) is =
    let rest = update_loop (i + 1) text (update_char c is) in if i + 1 == 2 ^ 31 then none else rest

-- `update_position_data` for any `long` length
unfoldable pub update_position_data : List ℕ → Position → Option Position
unfolding update_loop
update_position_data text is = elim (update_loop 0 text is) [
  | none ↦ none
  | some after ↦ some (record after { byte = add_long after.byte (length text) })
]

-- a round of `undo_position_data`
unfoldable pub undo_char : ℕ → Position → Position
unfolding pop_line
undo_char c is =
    let (len, lens) = pop_line is.line_len in
    if c == 10
    then record is { line = sub_long is.line 1; column = len; line_len = lens }
    else record is { column = sub_long is.column 1 }

-- the loop, for fewer than 2^31 characters
unfoldable pub undo_chars : List ℕ → Position → Position
unfolding undo_char
undo_chars [] is = is
undo_chars (c ∷ text) is = undo_chars text (undo_char c is)

-- `undo_position_data` for a length that is an `int`, as all its callers pass
unfoldable pub undo_position : List ℕ → Position → Position
unfolding undo_chars
undo_position text is =
    let after : Position = undo_chars text is in
    record after { byte = sub_long after.byte (length text) }

unfoldable pub undo_loop : ℕ → List ℕ → Position → Option Position
unfolding undo_char
undo_loop i [] is = some is
undo_loop i (c ∷ text) is =
    let rest = undo_loop (i + 1) text (undo_char c is) in if i + 1 == 2 ^ 31 then none else rest

-- `undo_position_data` for any `long` length
unfoldable pub undo_position_data : List ℕ → Position → Option Position
unfolding undo_loop
undo_position_data text is = elim (undo_loop 0 text is) [
  | none ↦ none
  | some after ↦ some (record after { byte = sub_long after.byte (length text) })
]
