-- ===== src/Stream/Walk.antt =====
-- The walks of `data_get_data` and `data_get_parse_block` of src/stream.c over the buffers at hand.
use colm.Prelude.{
  ℕ, ◌+◌, ◌-◌, ◌≤◌, ◌<◌, ◌≡◌, refl, sym, ap, ◌∙◌, List, [], ◌∷◌, ◌++◌, arith, ltb, leb, ◌&&◌, ◌==◌,
  length, length-append, take, drop, min, length-drop, take-append_le, take-append_add, take_all,
  drop-append_le, drop-append_add, Bool-cases, inl, inr,
}
use mathlib.Core.List.{append_assoc}
use colm.Stream.Buffers.{RunBuf, fsm_bufsize, new_run_buf, live, contents, avail, IsQueue}
use colm.Stream.Consume.{take-min}
use colm.Stream.Read.{
  Walked, copied, ran_out, behind, copy_bufs, Found, block, at_end, skip_bufs, received_buf,
}

pub contents-append : (q r : List RunBuf) → contents (q ++ r) ≡ contents q ++ contents r
contents-append [] r = refl
contents-append (buf ∷ q) r =
    ap (λ x. live buf ++ x) (contents-append q r)
    ∙ sym (append_assoc (live buf) (contents q) (contents r))

pub IsQueue-append : (q r : List RunBuf) → IsQueue q → IsQueue r → IsQueue (q ++ r)
IsQueue-append [] r a b = b
IsQueue-append (buf ∷ q) r a b = (a.0, IsQueue-append q r a.1 b)

-- what the walk over a text for `n` bytes gives
abbrev pub IsWalked : ℕ → List ℕ → Walked → Type 0
IsWalked n t (copied bytes) = (bytes ≡ take n t) × (n ≤ length t)
IsWalked n t (ran_out bytes left) = (bytes ≡ t) × (n ≡ length t + left)

pub behind-IsWalked :
    (n m : ℕ) (t u : List ℕ) (w : Walked)
    → n ≡ length t + m
    → IsWalked m u w
    → IsWalked n (t ++ u) (behind t w)
behind-IsWalked n m t u (copied bytes) e (is, le) =
    (ap (λ x. t ++ x) is ∙ sym (take-append_add n m t u e), omega (arith, length-append t u))
behind-IsWalked n m t u (ran_out bytes left) e (is, le) =
    (ap (λ x. t ++ x) is, omega (arith, length-append t u))

pub copy_bufs-IsWalked : (n : ℕ) (q : List RunBuf) → IsWalked n (contents q) (copy_bufs n q)
unfolding copy_bufs
copy_bufs-IsWalked n [] = (refl, omega arith)
copy_bufs-IsWalked n (buf ∷ rest) =
    let t : List ℕ = live buf in
    let len : length t ≡ avail buf = length-drop buf.offset buf.text in
    let slen : ℕ = min (avail buf) n in
    let cut : take slen t ≡ take n t = ap (λ a. take (min a n) t) (sym len) ∙ take-min n t in
    elim (Bool-cases (n - slen == 0)) [
      | inl stop ↦
          let le : n ≤ length t = ground (arith, len) in
          rw stop (
            cut ∙ sym (take-append_le n t (contents rest) le),
            omega (arith, length-append t (contents rest), le),
          )
      | inr go ↦
          let le : length t ≤ n = ground (arith, len) in
          let all : take slen t ≡ t = cut ∙ take_all n t le in
          rw (go, all)
            (behind-IsWalked n (n - slen) t (contents rest) (copy_bufs (n - slen) rest)
              (ground (arith, len)) (copy_bufs-IsWalked (n - slen) rest))
    ]

-- what the walk over a text that skips `n` bytes gives
abbrev pub IsFound : ℕ → List ℕ → Found → Type 0
IsFound n t (block bytes) =
    (n < length t) × (0 < length bytes) × (rest : List ℕ) × (drop n t ≡ bytes ++ rest)
IsFound n t (at_end left) = n ≡ length t + left

pub further-IsFound :
    (n m : ℕ) (t u : List ℕ) (f : Found) → n ≡ length t + m → IsFound m u f → IsFound n (t ++ u) f
further-IsFound n m t u (block bytes) e (lt, some', rest, is) =
    (omega (arith, length-append t u), some', rest, drop-append_add n m t u e ∙ is)
further-IsFound n m t u (at_end left) e is = omega (arith, length-append t u)

pub skip_bufs-IsFound :
    (n : ℕ) (q : List RunBuf) → n ≤ length (contents q) → IsFound n (contents q) (skip_bufs n q)
unfolding skip_bufs
skip_bufs-IsFound n [] h = omega arith
skip_bufs-IsFound n (buf ∷ rest) h =
    let t : List ℕ = live buf in
    let len : length t ≡ avail buf = length-drop buf.offset buf.text in
    let all : length (t ++ contents rest) ≡ length t + length (contents rest) =
      length-append t (contents rest) in
    let next : avail buf ≤ n → IsFound n (t ++ contents rest) (skip_bufs (n - avail buf) rest) =
      λ le.
        further-IsFound n (n - avail buf) t (contents rest) (skip_bufs (n - avail buf) rest)
          (omega (arith, len)) (skip_bufs-IsFound (n - avail buf) rest (omega (arith, len, all))) in
    elim (Bool-cases (ltb 0 (avail buf))) [
      | inr empty ↦ rw empty (next (ground arith))
      | inl some' ↦ elim (Bool-cases (ltb 0 n && leb (avail buf) n)) [
        | inl skipped ↦ rw (some', skipped) (next (ground arith))
        | inr here ↦
            let le : n ≤ length t = ground (arith, len) in
            rw (some', here)
              (
                ground (arith, len, all),
                ground (arith, len, length-drop n t),
                contents rest,
                drop-append_le n t (contents rest) le,
              )
      ]
    ]

pub received-IsQueue :
    (bytes : List ℕ) → length bytes ≤ fsm_bufsize → IsQueue (received_buf bytes ∷ [])
unfolding new_run_buf
received-IsQueue bytes h =
    (record { offset_le = omega arith; length_le = h; size_ge = omega arith }, tt)
