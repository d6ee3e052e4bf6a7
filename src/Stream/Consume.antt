-- ===== src/Stream/Consume.antt =====
-- What `data_consume_data` of src/stream.c takes from a queue.
use mathlib.Core.Path.{subst}
use colm.Prelude.{
  ℕ, zero, suc, ◌+◌, ◌-◌, ◌≤◌, ◌<◌, ◌≡◌, refl, sym, ap, ◌∙◌, List, [], ◌∷◌, ◌++◌, arith, ◌==◌, ltb,
  if◌then◌else◌, length, length-append, take, drop, min, length-drop, drop-append_le,
  drop-append_add, take-append_le, take-append_add, take_all, drop_all, drop-drop, Bool-cases, inl,
  inr,
}
use colm.Stream.Position.{
  Position, long_mod, add_long, push_line, update_char, update_chars, update_position,
}
use colm.Stream.Restore.{update_chars-byte}
use colm.Stream.Buffers.{
  RunBuf, live, contents, avail, IsQueue, Location, set_loc, Consumed, consume_bufs,
}

set_byte : ℕ → Position → Position
set_byte b is = record is { byte = b }

update_chars-set_byte :
    (text : List ℕ) (b : ℕ) (is : Position)
    → update_chars text (set_byte b is) ≡ set_byte b (update_chars text is)
unfolding update_chars update_char push_line set_byte
update_chars-set_byte [] b is = refl
update_chars-set_byte (c ∷ text) b is =
    ap (update_chars text) (ground arith) ∙ update_chars-set_byte text b (update_char c is)

update_chars-append :
    (xs ys : List ℕ) (is : Position)
    → update_chars (xs ++ ys) is ≡ update_chars ys (update_chars xs is)
unfolding update_chars
update_chars-append [] ys is = refl
update_chars-append (x ∷ xs) ys is = update_chars-append xs ys (update_char x is)

pub update_position-append :
    (xs ys : List ℕ) (is : Position)
    → update_position ys (update_position xs is) ≡ update_position (xs ++ ys) is
unfolding update_position set_byte
update_position-append xs ys is =
    let q : Position = update_chars xs is in
    let b : ℕ = add_long q.byte (length xs) in
    ap {A = Position} (λ w. record w { byte = add_long w.byte (length ys) })
      (update_chars-set_byte ys b q ∙ ap (set_byte b) (sym (update_chars-append xs ys is)))
    ∙ ap {A = ℕ} (λ n. record (update_chars (xs ++ ys) is) { byte = n })
        (omega
          (arith, update_chars-byte xs is, update_chars-byte (xs ++ ys) is, length-append xs ys))

update_position-nil : (pos : Position) → pos.byte < long_mod → update_position [] pos ≡ pos
unfolding update_position update_chars
update_position-nil pos h = ap {A = ℕ} (λ b. record pos { byte = b }) (omega arith)

take_zero : (n : ℕ) (t : List ℕ) → n ≡ 0 → take n t ≡ []
take_zero n t e = ap (λ i. take i t) e

take-suc : (n m x : ℕ) (t : List ℕ) → n ≡ suc m → take n (x ∷ t) ≡ x ∷ take m t
take-suc n m x t e = ap (λ i. take i (x ∷ t)) e

pub take-min : (n : ℕ) (t : List ℕ) → take (min (length t) n) t ≡ take n t
take-min n [] = take_all (min 0 n) [] (omega arith) ∙ sym (take_all n [] (omega arith))
take-min zero (x ∷ t) = take_zero (min (suc (length t)) 0) (x ∷ t) (omega arith)
take-min (suc n) (x ∷ t) =
    take-suc (min (suc (length t)) (suc n)) (min (length t) n) x t (omega arith)
    ∙ ap (λ xs. x ∷ xs) (take-min n t)

-- what a round of the loop over `t`, of which so much is asked for, leaves of the position
round_pos :
    (t : List ℕ) (n a : ℕ) (pos : Position)
    → length t ≡ a
    → pos.byte < long_mod
    → (if ltb 0 a then update_position (take (min a n) t) pos else pos)
      ≡ update_position (take n t) pos
round_pos [] n a pos e h =
    ground (arith, update_position-nil pos h, take_all {A = ℕ} n [], take_all {A = ℕ} (min a n) [])
round_pos (x ∷ t) n a pos e h = ground (arith, take-min n (x ∷ t))

pub update_position-byte :
    (text : List ℕ) (pos : Position) → (update_position text pos).byte < long_mod
unfolding update_position
update_position-byte text pos = omega arith

-- `r` is what is left when `n` bytes are asked of `queue`
pub record IsConsumed (n : ℕ) (queue : List RunBuf) (pos : Position) (r : Consumed) : Type 0 where
  pub count_eq : r.count ≡ min n (length (contents queue))
  pub rest : contents r.queue ≡ drop n (contents queue)
  pub pos_eq : r.pos ≡ update_position (take n (contents queue)) pos
  pub is_queue : IsQueue r.queue

pub consume_bufs-IsConsumed :
    (name n : ℕ) (queue : List RunBuf) (pos : Position) (loc : Location)
    → IsQueue queue
    → pos.byte < long_mod
    → IsConsumed n queue pos (consume_bufs name n queue pos loc)
unfolding consume_bufs
consume_bufs-IsConsumed name n [] pos loc q h = record {
  count_eq = omega arith;
  rest = sym (drop_all n [] (omega arith));
  pos_eq = ground (arith, update_position-nil pos h, take_all {A = ℕ} n []);
  is_queue = tt;
}
consume_bufs-IsConsumed name n (buf ∷ rest) pos loc (is, q) h =
    let t : List ℕ = live buf in
    let len : length t ≡ avail buf = length-drop buf.offset buf.text in
    let all : length (t ++ contents rest) ≡ length t + length (contents rest) =
      length-append t (contents rest) in
    let a : ℕ = avail buf in
    let slen : ℕ = min a n in
    let pos' : Position = if ltb 0 a then update_position (take slen t) pos else pos in
    let loc' : Location = if ltb 0 a then set_loc name pos loc else loc in
    let pe : pos' ≡ update_position (take n t) pos = round_pos t n a pos len h in
    let cr : List ℕ = contents rest in
    let at : List ℕ → Position = λ x. update_position x pos in
    elim (Bool-cases (n - slen == 0)) [
      | inl stop ↦
          let le : n ≤ length t = ground (arith, len) in
          let off : buf.offset + slen ≡ buf.offset + n = ground (arith, len) in
          rw stop (record {
            count_eq = ground (arith, len, all);
            rest =
                ap (λ x. x ++ cr) (sym (drop-drop n buf.offset (buf.offset + slen) buf.text off))
                ∙ sym (drop-append_le n t cr le);
            pos_eq = pe ∙ ap at (sym (take-append_le n t cr le));
            is_queue = (
              record {
                offset_le = ground (arith, is.offset_le);
                length_le = is.length_le;
                size_ge = is.size_ge;
              },
              q,
            );
          })
      | inr go ↦
          let le : length t ≤ n = ground (arith, len) in
          let e : n ≡ length t + (n - slen) = ground (arith, len) in
          let r =
            consume_bufs-IsConsumed name (n - slen) rest pos' loc' q
              (subst (λ p. p.byte < long_mod) (sym pe) (update_position-byte (take n t) pos)) in
          rw go (record {
            count_eq = ground (arith, len, all, r.count_eq);
            rest = r.rest ∙ sym (drop-append_add n (n - slen) t cr e);
            pos_eq =
                r.pos_eq
                ∙ ap (update_position (take (n - slen) cr)) (pe ∙ ap at (take_all n t le))
                ∙ update_position-append t (take (n - slen) cr) pos
                ∙ ap at (sym (take-append_add n (n - slen) t cr e));
            is_queue = r.is_queue;
          })
    ]
