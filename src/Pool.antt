-- ===== src/Pool.antt =====
-- src/pool.c: the pools from which elements of one size are allocated, without POOL_MALLOC.
--
-- Addresses are numbers, 0 is null. `next` is the first word of every element, as a memory: a free
-- element keeps the next free one there. The blocks are kept as the list of their `data`, the last
-- one first. What `malloc` answers is a parameter, `data`. A null pointer that is followed is
-- `none`. A `long` that counts wraps.
pub mod Use
pub mod Take
pub mod Free
use colm.Prelude.{
  ℕ, zero, suc, ◌+◌, ◌-◌, ◌*◌, ◌%◌, ◌^◌, Option, none, some, List, [], ◌∷◌, ◌==◌, if◌then◌else◌,
}
use colm.Links.{update}

abbrev pub fresh_block : ℕ
fresh_block = 8128

-- `struct pool_alloc`, and the memory
pub record PoolAlloc : Type 0 where
  pub head : List ℕ
  pub nextel : ℕ
  pub pool : ℕ
  pub sizeof_t : ℕ
  pub next : ℕ → ℕ

unfoldable pub init_pool_alloc : ℕ → (ℕ → ℕ) → PoolAlloc
init_pool_alloc sizeof_t next = record {
  head = [];
  nextel = fresh_block;
  pool = 0;
  sizeof_t = sizeof_t;
  next = next;
}

-- a new block, if the last one is used up
unfoldable pub add_block : ℕ → PoolAlloc → PoolAlloc
add_block data_at p =
    if p.nextel == fresh_block then record p { head = data_at ∷ p.head; nextel = 0 } else p

-- the next element of the last block
unfoldable pub take_next : PoolAlloc → Option (ℕ × PoolAlloc)
take_next p = elim p.head [
  | [] ↦ none
  | d ∷ ds ↦
      let new_el = d + p.sizeof_t * p.nextel in
      some (new_el, record p { nextel = p.nextel + 1; next = update p.next new_el 0 })
]

unfoldable pub pool_alloc_allocate : ℕ → PoolAlloc → Option (ℕ × PoolAlloc)
unfolding add_block take_next
pool_alloc_allocate data_at p =
    if p.pool == 0
    then take_next (add_block data_at p)
    else some (p.pool, record p { pool = p.next p.pool; next = update p.next p.pool 0 })

unfoldable pub pool_alloc_free : PoolAlloc → ℕ → PoolAlloc
pool_alloc_free p el = record p { pool = el; next = update p.next el p.pool }

unfoldable pub pool_alloc_clear : PoolAlloc → PoolAlloc
pool_alloc_clear p = record p { head = []; nextel = 0; pool = 0 }

-- the blocks behind the last one, and the loop over the free elements
unfoldable pub count_blocks : ℕ → List ℕ → ℕ
count_blocks lost [] = lost
count_blocks lost (d ∷ ds) = count_blocks ((lost + fresh_block) % 2 ^ 64) ds

unfoldable pub discount_free : ℕ → (ℕ → ℕ) → ℕ → ℕ → Option ℕ
discount_free zero next pi lost = none
discount_free (suc fuel) next pi lost =
    let rest = discount_free fuel next (next pi) ((lost + 2 ^ 64 - 1) % 2 ^ 64) in
    if pi == 0 then some lost else rest

abbrev pub lost_of_blocks : ℕ → List ℕ → ℕ
lost_of_blocks nextel [] = 0
lost_of_blocks nextel (d ∷ ds) = count_blocks nextel ds

unfoldable pub pool_alloc_num_lost : ℕ → PoolAlloc → Option ℕ
unfolding count_blocks discount_free
pool_alloc_num_lost fuel p = discount_free fuel p.next p.pool (lost_of_blocks p.nextel p.head)
