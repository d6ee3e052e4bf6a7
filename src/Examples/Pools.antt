-- ===== src/Examples/Pools.antt =====
-- Pools of memory with a few elements.
use colm.Prelude.{ℕ, ◌≡◌, refl, inl, inr, [], ◌∷◌, none, some, arith}
use mathlib.Core.Option
use colm.Pool.{
  PoolAlloc, init_pool_alloc, add_block, take_next, pool_alloc_allocate, pool_alloc_free,
  pool_alloc_clear, pool_alloc_num_lost,
}
use colm.Pool.Use.{IsPool}
use colm.Pool.Take.{IsRoom, Given, pool_alloc_allocate-Given}
use colm.Pool.Free.{pool_alloc_free-IsPool}

-- elements of 16 bytes, the block at 1000: those at 1000 and at 1032 in use, the one at 1016 free
abbrev two_used : PoolAlloc
two_used = record { head = 1000 ∷ []; nextel = 3; pool = 1016; sizeof_t = 16; next = λ a. 0 }

two_used-IsPool : IsPool two_used (1032 ∷ 1000 ∷ []) (1016 ∷ [])
two_used-IsPool = record {
  size = omega arith;
  blocks = (tt, tt);
  block_pos = (omega arith, tt);
  nextel_le = omega arith;
  has_room = tt;
  frees = (refl, omega arith, refl);
  apart = ((inr (omega arith), (inr (omega arith), tt)), ((inl (omega arith), tt), (tt, tt)));
  made = (
    inl (omega arith, omega arith),
    (inl (omega arith, omega arith), (inl (omega arith, omega arith), tt)),
  );
  count = refl;
}

two_used-IsRoom : IsRoom 500000 two_used
two_used-IsRoom = record { pos = omega arith; apart = (inr (omega arith), tt) }

pool_alloc_allocate-Given_example :
    Given 16 (1032 ∷ 1000 ∷ []) (pool_alloc_allocate 500000 two_used)
pool_alloc_allocate-Given_example =
    pool_alloc_allocate-Given two_used (1032 ∷ 1000 ∷ []) (1016 ∷ []) 500000 two_used-IsRoom
      two_used-IsPool

pool_alloc_free-IsPool_example :
    IsPool (pool_alloc_free two_used 1000) (1032 ∷ []) (1000 ∷ 1016 ∷ [])
    × (pool_alloc_num_lost 3 (pool_alloc_free two_used 1000) ≡ some 1)
pool_alloc_free-IsPool_example =
    pool_alloc_free-IsPool two_used 1000 (1032 ∷ []) [] (1016 ∷ []) (omega arith) two_used-IsPool

-- the first allocation from a new pool makes a block
first_allocation :
    Option.map (λ r. r.0) (pool_alloc_allocate 1000 (init_pool_alloc 16 (λ a. 0))) ≡ some 1000
unfolding pool_alloc_allocate init_pool_alloc add_block take_next
first_allocation = refl

-- what was freed last is allocated next
freed_again :
    Option.map (λ r. r.0) (pool_alloc_allocate 500000 (pool_alloc_free two_used 1000)) ≡ some 1000
unfolding pool_alloc_allocate pool_alloc_free
freed_again = refl

-- a pool that was cleared has no block, and its `nextel` does not ask for one
cleared : (data_at : ℕ) → pool_alloc_allocate data_at (pool_alloc_clear two_used) ≡ none
unfolding pool_alloc_allocate pool_alloc_clear add_block take_next
cleared data_at = refl
