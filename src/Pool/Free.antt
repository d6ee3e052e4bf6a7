-- ===== src/Pool/Free.antt =====
-- An element is given back to a pool, and what is in use is counted.
use colm.Prelude.{
  ℕ, suc, ◌+◌, ◌-◌, ◌%◌, ◌^◌, ◌≤◌, ◌<◌, ◌≡◌, refl, sym, ap, ◌∙◌, some, List, [], ◌∷◌, ◌++◌, length,
  length-append, arith,
}
use colm.Links.{update}
use colm.Links.Sequence.{update_self}
use colm.Pool.{
  PoolAlloc, fresh_block, pool_alloc_free, count_blocks, discount_free, lost_of_blocks,
  pool_alloc_num_lost,
}
use colm.Pool.Use.{
  All, All-out, All-into, All-last, Apart, AreApart, AreApart-out, AreApart-into, IsMade,
  IsMade-pos, num_made, Frees, IsPool,
}
use colm.Pool.Take.{Frees-update}
use mathlib.Core.Path.{subst}
use mathlib.Core.List.{append_assoc}

wrap : (a : ℕ) → a < 2 ^ 64 → a % 2 ^ 64 ≡ a
wrap a h = omega arith

count_blocks-num_made :
    (lost : ℕ) (ds : List ℕ)
    → lost + num_made fresh_block ds < 2 ^ 64
    → count_blocks lost ds ≡ lost + num_made fresh_block ds
unfolding count_blocks
count_blocks-num_made lost [] h = omega arith
count_blocks-num_made lost (d ∷ ds) h =
    ap (λ k. count_blocks k ds) (wrap (lost + fresh_block) (omega (arith, h)))
    ∙ count_blocks-num_made (lost + fresh_block) ds (omega (arith, h))
    ∙ omega arith

discount_free-length :
    (next : ℕ → ℕ) (pi lost : ℕ) (free : List ℕ)
    → Frees next pi free
    → length free ≤ lost
    → lost < 2 ^ 64
    → discount_free (suc (length free)) next pi lost ≡ some (lost - length free)
unfolding discount_free
discount_free-length next pi lost [] f le lt = rw f (ap some (omega arith))
discount_free-length next pi lost (x ∷ free) (e, ne, f) le lt =
    ground (arith, discount_free-length next (next x) (lost - 1) free f)

lost_of_blocks-num_made :
    (n : ℕ) (head : List ℕ) → num_made n head < 2 ^ 64 → lost_of_blocks n head ≡ num_made n head
lost_of_blocks-num_made n [] h = refl
lost_of_blocks-num_made n (d ∷ ds) h = count_blocks-num_made n ds h

-- the elements that are made and not free are those in use
pool_alloc_num_lost-length :
    (p : PoolAlloc) (used free : List ℕ)
    → num_made p.nextel p.head < 2 ^ 64
    → IsPool p used free
    → pool_alloc_num_lost (suc (length free)) p ≡ some (length used)
unfolding pool_alloc_num_lost
pool_alloc_num_lost-length p used free lt u =
    let lost = lost_of_blocks-num_made p.nextel p.head lt in
    let count : length used + length free ≡ num_made p.nextel p.head = u.count in
    let le : length free ≤ num_made p.nextel p.head = omega arith in
    let left : num_made p.nextel p.head - length free ≡ length used = omega arith in
    rw
      (lost, discount_free-length p.next p.pool (num_made p.nextel p.head) free u.frees le lt, left)
      refl

free_lem :
    (p : PoolAlloc) (el : ℕ) (xs ys free : List ℕ)
    → IsPool p (xs ++ el ∷ ys) free
    → IsPool (pool_alloc_free p el) (xs ++ ys) (el ∷ free)
unfolding pool_alloc_free
free_lem p el xs ys free u =
    let s : ℕ = p.sizeof_t in
    let shift : (xs ++ el ∷ ys) ++ free ≡ xs ++ el ∷ (ys ++ free) =
      append_assoc xs (el ∷ ys) free in
    let back : (xs ++ ys) ++ free ≡ xs ++ (ys ++ free) = append_assoc xs ys free in
    let (ap0, rest) = AreApart-out s el xs (ys ++ free) (subst (AreApart s) shift u.apart) in
    let (m, ms) =
      All-out (IsMade s p.nextel p.head) el xs (ys ++ free)
        (subst (All (IsMade s p.nextel p.head)) shift u.made) in
    let ap' = subst (All (Apart s el)) (sym back) ap0 in
    record {
      size = u.size;
      blocks = u.blocks;
      block_pos = u.block_pos;
      nextel_le = u.nextel_le;
      has_room = u.has_room;
      frees = (
        refl,
        IsMade-pos s p.nextel p.head el u.block_pos m,
        subst (λ a. Frees (update p.next el p.pool) a free) (sym (update_self p.next el p.pool))
            (Frees-update s u.size p.next el p.pool p.pool free
              (All-last (Apart s el) (xs ++ ys) free ap') u.frees),
      );
      apart = AreApart-into s el (xs ++ ys) free ap' (subst (AreApart s) (sym back) rest);
      made =
          All-into (IsMade s p.nextel p.head) el (xs ++ ys) free m
            (subst (All (IsMade s p.nextel p.head)) (sym back) ms);
      count = omega (arith, u.count, length-append xs (el ∷ ys), length-append xs ys);
    }

-- For a well-formed pool that has made fewer than 2^64 elements and any element in use:
-- `pool_alloc_free` leaves a well-formed pool with the element free and all other ones in use, and
-- `pool_alloc_num_lost` then ends, one round for each free element and one more, and answers how
-- many these are.
pub pool_alloc_free-IsPool :
    (p : PoolAlloc) (el : ℕ) (xs ys free : List ℕ)
    → num_made p.nextel p.head < 2 ^ 64
    → IsPool p (xs ++ el ∷ ys) free
    → IsPool (pool_alloc_free p el) (xs ++ ys) (el ∷ free)
      × (pool_alloc_num_lost (suc (length (el ∷ free))) (pool_alloc_free p el)
          ≡ some (length (xs ++ ys)))
unfolding pool_alloc_free
pool_alloc_free-IsPool p el xs ys free lt u =
    let freed = free_lem p el xs ys free u in
    (freed, pool_alloc_num_lost-length (pool_alloc_free p el) (xs ++ ys) (el ∷ free) lt freed)
