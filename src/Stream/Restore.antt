-- ===== src/Stream/Restore.antt =====
-- What `undo_position_data` of src/stream.c restores of what `update_position_data` did.
use colm.Prelude.{
  ℕ, suc, ◌+◌, ◌%◌, ◌≤◌, ◌<◌, ◌≡◌, refl, ap, ◌∙◌, List, [], ◌∷◌, arith, ◌==◌, if◌then◌else◌, length,
  drop, drop_all,
}
use colm.Stream.Position.{
  Position, long_mod, sub_long, push_line, pop_line, update_char, update_chars, update_position,
  undo_char, undo_chars, undo_position,
}

-- the number of line ends
abbrev pub newlines : List ℕ → ℕ
newlines [] = 0
newlines (c ∷ text) = if c == 10 then suc (newlines text) else newlines text

pub update_chars-byte : (text : List ℕ) (is : Position) → (update_chars text is).byte ≡ is.byte
unfolding update_chars update_char push_line
update_chars-byte [] is = refl
update_chars-byte (c ∷ text) is = update_chars-byte text (update_char c is) ∙ ground arith

update_chars-line :
    (text : List ℕ) (is : Position)
    → is.line < long_mod
    → (update_chars text is).line ≡ (is.line + newlines text) % long_mod
unfolding update_chars update_char push_line
update_chars-line [] is h = omega arith
update_chars-line (c ∷ text) is h =
    update_chars-line text (update_char c is) (ground arith) ∙ ground arith

undo_chars-byte : (text : List ℕ) (is : Position) → (undo_chars text is).byte ≡ is.byte
unfolding undo_chars undo_char
undo_chars-byte [] is = refl
undo_chars-byte (c ∷ text) is = undo_chars-byte text (undo_char c is) ∙ ground arith

undo_chars-line :
    (text : List ℕ) (is : Position)
    → is.line < long_mod
    → newlines text < long_mod
    → (undo_chars text is).line ≡ sub_long is.line (newlines text)
unfolding undo_chars undo_char
undo_chars-line [] is h k = omega arith
undo_chars-line (c ∷ text) is h k =
    undo_chars-line text (undo_char c is) (ground arith) (ground arith) ∙ ground arith

-- the stack of line lengths grows by an entry for each line end, and shrinks by one
drop-update_char :
    (c n : ℕ) (is : Position)
    → drop (if c == 10 then suc n else n) (update_char c is).line_len ≡ drop n is.line_len
unfolding update_char push_line
drop-update_char c n is = ground arith

drop-update_chars :
    (text : List ℕ) (is : Position) (n k : ℕ)
    → k ≡ n + newlines text
    → drop k (update_chars text is).line_len ≡ drop n is.line_len
unfolding update_chars
drop-update_chars [] is n k e = ap (λ i. drop i is.line_len) (omega arith)
drop-update_chars (c ∷ text) is n k e =
    drop-update_chars text (update_char c is) (if c == 10 then suc n else n) k (ground arith)
    ∙ drop-update_char c n is

pop_line-drop : (n : ℕ) (lens : List ℕ) → drop n (pop_line lens).1 ≡ drop (suc n) lens
unfolding pop_line
pop_line-drop n [] = drop_all n [] (omega arith)
pop_line-drop n (len ∷ lens) = refl

undo_chars-line_len :
    (text : List ℕ) (is : Position)
    → (undo_chars text is).line_len ≡ drop (newlines text) is.line_len
unfolding undo_chars undo_char
undo_chars-line_len [] is = refl
undo_chars-line_len (c ∷ text) is =
    undo_chars-line_len text (undo_char c is)
    ∙ ground (arith, pop_line-drop (newlines text) is.line_len)

-- a text in one line moves the column by its length
update_chars-column :
    (text : List ℕ) (is : Position)
    → newlines text ≡ 0
    → is.column < long_mod
    → (update_chars text is).column ≡ (is.column + length text) % long_mod
unfolding update_chars update_char push_line
update_chars-column [] is one h = omega arith
update_chars-column (c ∷ text) is one h =
    update_chars-column text (update_char c is) (ground arith) (ground arith) ∙ ground arith

undo_chars-column :
    (text : List ℕ) (is : Position)
    → newlines text ≡ 0
    → is.column < long_mod
    → length text < long_mod
    → (undo_chars text is).column ≡ sub_long is.column (length text)
unfolding undo_chars undo_char
undo_chars-column [] is one h k = omega arith
undo_chars-column (c ∷ text) is one h k =
    undo_chars-column text (undo_char c is) (ground arith) (ground arith) (ground arith)
    ∙ ground arith

newlines_le : (text : List ℕ) → newlines text ≤ length text
newlines_le [] = omega arith
newlines_le (c ∷ text) = ground (arith, newlines_le text)

-- a text that is sent back behind its consumption
pub undo_position-update_position :
    (text : List ℕ) (is : Position)
    → is.line < long_mod
    → is.byte < long_mod
    → length text < long_mod
    → ((undo_position text (update_position text is)).line ≡ is.line)
      × ((undo_position text (update_position text is)).byte ≡ is.byte)
      × ((undo_position text (update_position text is)).line_len ≡ is.line_len)
unfolding undo_position update_position
undo_position-update_position text is l b n =
    let after : Position = update_position text is in
    let down = update_chars-line text is l in
    let lt : after.line < long_mod = omega (arith, down) in
    let few = newlines_le text in
    (
      omega (arith, undo_chars-line text after lt (omega (arith, few)), down, few),
      omega (arith, undo_chars-byte text after, update_chars-byte text is),
      undo_chars-line_len text after ∙ drop-update_chars text is 0 (newlines text) (omega arith),
    )

-- For a text of less than 2^64 bytes in one line: sending it back restores the column that its
-- consumption has changed.
pub undo_position-update_position_column :
    (text : List ℕ) (is : Position)
    → newlines text ≡ 0
    → is.column < long_mod
    → length text < long_mod
    → (undo_position text (update_position text is)).column ≡ is.column
unfolding undo_position update_position
undo_position-update_position_column text is one c n =
    let after : Position = update_position text is in
    let right = update_chars-column text is one c in
    let lt : after.column < long_mod = omega (arith, right) in
    omega (arith, undo_chars-column text after one lt n, right)
