-- ===== src/Pool/Take.antt =====
-- An element is allocated from a pool.
use colm.Prelude.{
  ℕ, ◌+◌, ◌*◌, ◌≤◌, ◌<◌, ◌≡◌, ◌≢◌, inl, inr, refl, sym, ap, Option, some, List, [], ◌∷◌, ◌++◌, true,
  false, ◌==◌, Bool-cases, arith,
}
use colm.Links.{update}
use colm.Pool.{PoolAlloc, fresh_block, add_block, take_next, pool_alloc_allocate}
use colm.Pool.Use.{
  All, All-out, All-map, All-first, All-last, HasRoom, Apart, AreApart, AreApart-out, IsMade,
  num_made, Frees, IsPool,
}
use mathlib.Core.Path.{subst}

-- a write to an element that is apart from the free ones
pub Frees-update :
    (s : ℕ)
    → 1 ≤ s
    → (next : ℕ → ℕ) (el v a : ℕ) (free : List ℕ) → All (Apart s el) free
    → Frees next a free
    → Frees (update next el v) a free
Frees-update s pos next el v a [] o h = h
Frees-update s pos next el v a (x ∷ free) (o, os) (e, ne, h) = (
  e,
  ne,
  subst (λ b. Frees (update next el v) b free) (sym (kept o))
      (Frees-update s pos next el v (next x) free os h),
)
  where
    kept : Apart s el x → update next el v x ≡ next x
    kept (inl le) = ground (arith, pos)
    kept (inr le) = ground (arith, pos)

product_le : (s i n : ℕ) → i < n → s * i + s ≤ s * n
product_le s i n h = grind arith

-- the next element of the last block
module _ (s n d : ℕ) (pos : 1 ≤ s) (lt : n < fresh_block) where
  fresh-Apart :
      (ds : List ℕ)
      → AreApart (s * fresh_block) (d ∷ ds)
      → (a : ℕ) → IsMade s n (d ∷ ds) a
      → Apart s (d + s * n) a
  fresh-Apart ds h a (inl m) = inr m.1
  fresh-Apart ds h a (inr m) = behind ds h.0 m
    where
      room : s * n + s ≤ s * fresh_block
      room = product_le s n fresh_block lt

      behind :
          (es : List ℕ)
          → All (Apart (s * fresh_block) d) es
          → IsMade s fresh_block es a
          → Apart s (d + s * n) a
      behind [] os m = elim m [ ]
      behind (e ∷ es) (inl o, os) (inl m) = inl (omega (arith, o, m.0, room))
      behind (e ∷ es) (inr o, os) (inl m) = inr (omega (arith, o, m.1))
      behind (e ∷ es) (o, os) (inr m) = behind es os m

  fresh-IsMade : (ds : List ℕ) (a : ℕ) → IsMade s n (d ∷ ds) a → IsMade s (n + 1) (d ∷ ds) a
  fresh-IsMade ds a (inl m) = inl (m.0, omega (arith, m.1, product_le s n (n + 1) (omega arith)))
  fresh-IsMade ds a (inr m) = inr m

  fresh-next :
      (ds xs : List ℕ)
      → AreApart (s * fresh_block) (d ∷ ds)
      → All (IsMade s n (d ∷ ds)) xs
      → All (Apart s (d + s * n)) xs × All (IsMade s (n + 1) (d ∷ ds)) ((d + s * n) ∷ xs)
  fresh-next ds xs h m = (
    All-map (IsMade s n (d ∷ ds)) (Apart s (d + s * n)) (fresh-Apart ds h) xs m,
    (
      inl (omega arith, omega (arith, product_le s n (n + 1) (omega arith))),
      All-map (IsMade s n (d ∷ ds)) (IsMade s (n + 1) (d ∷ ds)) (fresh-IsMade ds) xs m,
    ),
  )

-- a new block of `malloc` is not null and does not overlap the other ones
pub record IsRoom (data_at : ℕ) (p : PoolAlloc) : Type 0 where
  pub pos : data_at ≢ 0
  pub apart : All (Apart (p.sizeof_t * fresh_block) data_at) p.head

-- the answer of an allocation, of `s` bytes
abbrev pub Given : ℕ → List ℕ → Option (ℕ × PoolAlloc) → Type 0
Given s used r =
    (el : ℕ) × (p' : PoolAlloc) × (free : List ℕ) × (r ≡ some (el, p'))
    × (el ≢ 0)
    × All (Apart s el) used
    × IsPool p' (el ∷ used) free

-- a pool whose last block has a next element
abbrev Ready : ℕ → List ℕ → List ℕ → PoolAlloc → Type 0
Ready s used free q =
    (d : ℕ) × (ds : List ℕ) × (q.head ≡ d ∷ ds)
    × (q.sizeof_t ≡ s)
    × (q.nextel < fresh_block)
    × IsPool q used free

block_of :
    (n : ℕ) (head : List ℕ)
    → HasRoom n head
    → (n == fresh_block) ≡ false
    → (d : ℕ) × (ds : List ℕ) × (head ≡ d ∷ ds)
block_of n [] h e = absurd (ground (arith, h))
block_of n (d ∷ ds) h e = (d, ds, refl)

below_fresh : (n : ℕ) → n ≤ fresh_block → (n == fresh_block) ≡ false → n < fresh_block
below_fresh n le e = ground arith

full : (n : ℕ) → (n == fresh_block) ≡ true → n ≡ fresh_block
full n e = ground arith

module _ (used : List ℕ) where
  next_of :
      (p : PoolAlloc) (d : ℕ) (ds free : List ℕ)
      → p.nextel < fresh_block
      → IsPool (record p { head = d ∷ ds }) used free
      → Given p.sizeof_t used (take_next (record p { head = d ∷ ds }))
  unfolding take_next
  next_of p d ds free lt u =
      let new_el : ℕ = d + p.sizeof_t * p.nextel in
      let (ap, md) = fresh-next p.sizeof_t p.nextel d u.size lt ds (used ++ free) u.blocks u.made in
      let ne : new_el ≢ 0 = λ e. u.block_pos.0 (omega (arith, e)) in
      (
        new_el,
        record p { head = d ∷ ds; nextel = p.nextel + 1; next = update p.next new_el 0 },
        free,
        refl,
        ne,
        All-first (Apart p.sizeof_t new_el) used free ap,
        record {
          size = u.size;
          blocks = u.blocks;
          block_pos = u.block_pos;
          nextel_le = omega (arith, lt);
          has_room = tt;
          frees =
              Frees-update p.sizeof_t u.size p.next new_el 0 p.pool free
                (All-last (Apart p.sizeof_t new_el) used free ap) u.frees;
          apart = (ap, u.apart);
          made = md;
          count = omega (arith, u.count);
        },
      )

  take_next-Given :
      (s : ℕ) (q : PoolAlloc) (free : List ℕ) → Ready s used free q → Given s used (take_next q)
  take_next-Given s q free (d, ds, e, es, lt, u) =
      let with_head : q ≡ record q { head = d ∷ ds } = ap (λ h. record q { head = h }) e in
      subst (λ k. Given k used (take_next q)) es
        (subst (λ r. Given q.sizeof_t used (take_next r)) (sym with_head)
          (next_of q d ds free lt (subst (λ r. IsPool r used free) with_head u)))

  add_block-Ready :
      (data_at : ℕ) (p : PoolAlloc) (free : List ℕ)
      → IsRoom data_at p
      → IsPool p used free
      → Ready p.sizeof_t used free (add_block data_at p)
  unfolding add_block
  add_block-Ready data_at p free room u = elim (Bool-cases (p.nextel == fresh_block)) [
    | inl e ↦
        let n_eq = full p.nextel e in
        let added : add_block data_at p ≡ record p { head = data_at ∷ p.head; nextel = 0 } = rw e in
        subst (Ready p.sizeof_t used free) (sym added) (
          data_at,
          p.head,
          refl,
          refl,
          omega arith,
          record {
            size = u.size;
            blocks = (room.apart, u.blocks);
            block_pos = (room.pos, u.block_pos);
            nextel_le = omega arith;
            has_room = tt;
            frees = u.frees;
            apart = u.apart;
            made =
                All-map (IsMade p.sizeof_t p.nextel p.head) (IsMade p.sizeof_t 0 (data_at ∷ p.head))
                  (λ a m. inr (subst (λ k. IsMade p.sizeof_t k p.head a) n_eq m)) (used ++ free)
                  u.made;
            count = omega (arith, u.count, ap (λ k. num_made k p.head) n_eq);
          },
        )
    | inr e ↦
        let kept : add_block data_at p ≡ p = rw e in
        let (d, ds, e') = block_of p.nextel p.head u.has_room e in
        subst (Ready p.sizeof_t used free) (sym kept)
          (d, ds, e', refl, below_fresh p.nextel u.nextel_le e, u)
  ]

  reuse_of :
      (p : PoolAlloc) (x : ℕ) (free : List ℕ)
      → IsPool (record p { pool = x }) used (x ∷ free)
      → Given p.sizeof_t used (some (x, record p { pool = p.next x; next = update p.next x 0 }))
  reuse_of p x free u =
      let (ap, rest) = AreApart-out p.sizeof_t x used free u.apart in
      (
        x,
        record p { pool = p.next x; next = update p.next x 0 },
        free,
        refl,
        u.frees.1,
        All-first (Apart p.sizeof_t x) used free ap,
        record {
          size = u.size;
          blocks = u.blocks;
          block_pos = u.block_pos;
          nextel_le = u.nextel_le;
          has_room = u.has_room;
          frees =
              Frees-update p.sizeof_t u.size p.next x 0 (p.next x) free
                (All-last (Apart p.sizeof_t x) used free ap) u.frees.2;
          apart = (ap, rest);
          made = All-out (IsMade p.sizeof_t p.nextel p.head) x used free u.made;
          count = omega (arith, u.count);
        },
      )

  reuse-Given :
      (p : PoolAlloc) (free : List ℕ)
      → p.pool ≢ 0
      → IsPool p used free
      → Given p.sizeof_t used
          (some (p.pool, record p { pool = p.next p.pool; next = update p.next p.pool 0 }))
  reuse-Given p [] ne u = absurd (ne u.frees)
  reuse-Given p (x ∷ free) ne u =
      let with_pool : p ≡ record p { pool = x } = ap (λ a. record p { pool = a }) u.frees.0 in
      subst
        (λ a.
          Given p.sizeof_t used (some (a, record p { pool = p.next a; next = update p.next a 0 })))
        (sym u.frees.0) (reuse_of p x free (subst (λ r. IsPool r used (x ∷ free)) with_pool u))

-- For a well-formed pool and a `malloc` that answers a new block: `pool_alloc_allocate` succeeds.
-- The element is not null and overlaps none of those in use, and the pool is well formed with it
-- in use.
pub pool_alloc_allocate-Given :
    (p : PoolAlloc) (used free : List ℕ) (data_at : ℕ)
    → IsRoom data_at p
    → IsPool p used free
    → Given p.sizeof_t used (pool_alloc_allocate data_at p)
unfolding pool_alloc_allocate
pool_alloc_allocate-Given p used free data_at room u = elim (Bool-cases (p.pool == 0)) [
  | inl e ↦ rw e (
      take_next-Given used p.sizeof_t (add_block data_at p) free
        (add_block-Ready used data_at p free room u))
  | inr e ↦ rw e (reuse-Given used p free (not_null p.pool e) u)
]
  where
    not_null : (a : ℕ) → (a == 0) ≡ false → a ≢ 0
    not_null a e = ground arith
