-- ===== src/Pool/Use.antt =====
-- What is in use of a pool, and what is free.
use colm.Prelude.{ℕ, ◌+◌, ◌*◌, ◌≤◌, ◌≡◌, ◌≢◌, ◌⊎◌, inl, inr, List, [], ◌∷◌, ◌++◌, length, arith}
use colm.Pool.{PoolAlloc, fresh_block}

abbrev pub All : (ℕ → Type 0) → List ℕ → Type 0
All P [] = Unit
All P (x ∷ xs) = P x × All P xs

pub All-out :
    (P : ℕ → Type 0) (x : ℕ) (xs ys : List ℕ) → All P (xs ++ x ∷ ys) → P x × All P (xs ++ ys)
All-out P x [] ys h = h
All-out P x (y ∷ xs) ys (a, h) = let (b, c) = All-out P x xs ys h in (b, (a, c))

pub All-into :
    (P : ℕ → Type 0) (x : ℕ) (xs ys : List ℕ) → P x → All P (xs ++ ys) → All P (xs ++ x ∷ ys)
All-into P x [] ys p h = (p, h)
All-into P x (y ∷ xs) ys p (a, h) = (a, All-into P x xs ys p h)

pub All-map : (P Q : ℕ → Type 0) → ((x : ℕ) → P x → Q x) → (xs : List ℕ) → All P xs → All Q xs
All-map P Q f [] h = tt
All-map P Q f (x ∷ xs) (a, h) = (f x a, All-map P Q f xs h)

pub All-last : (P : ℕ → Type 0) (xs ys : List ℕ) → All P (xs ++ ys) → All P ys
All-last P [] ys h = h
All-last P (x ∷ xs) ys (a, h) = All-last P xs ys h

pub All-first : (P : ℕ → Type 0) (xs ys : List ℕ) → All P (xs ++ ys) → All P xs
All-first P [] ys h = tt
All-first P (x ∷ xs) ys (a, h) = (a, All-first P xs ys h)

-- areas of `s` bytes that do not overlap
abbrev pub Apart : ℕ → ℕ → ℕ → Type 0
Apart s a b = (a + s ≤ b) ⊎ (b + s ≤ a)

abbrev pub AreApart : ℕ → List ℕ → Type 0
AreApart s [] = Unit
AreApart s (x ∷ xs) = All (Apart s x) xs × AreApart s xs

pub Apart-sym : (s a b : ℕ) → Apart s a b → Apart s b a
Apart-sym s a b (inl h) = inr h
Apart-sym s a b (inr h) = inl h

pub AreApart-out :
    (s x : ℕ) (xs ys : List ℕ)
    → AreApart s (xs ++ x ∷ ys)
    → All (Apart s x) (xs ++ ys) × AreApart s (xs ++ ys)
AreApart-out s x [] ys h = h
AreApart-out s x (y ∷ xs) ys (a, h) =
    let (b, c) = AreApart-out s x xs ys h in
    let (d, e) = All-out (Apart s y) x xs ys a in ((Apart-sym s y x d, b), (e, c))

pub AreApart-into :
    (s x : ℕ) (xs ys : List ℕ)
    → All (Apart s x) (xs ++ ys)
    → AreApart s (xs ++ ys)
    → AreApart s (xs ++ x ∷ ys)
AreApart-into s x [] ys a h = (a, h)
AreApart-into s x (y ∷ xs) ys (d, a) (e, h) =
    (All-into (Apart s y) x xs ys (Apart-sym s x y d) e, AreApart-into s x xs ys a h)

-- an element lies among the first `n` of the last block, or in a block behind it
abbrev pub IsMade : ℕ → ℕ → List ℕ → ℕ → Type 0
IsMade s n [] a = ⊥
IsMade s n (d ∷ ds) a = ((d ≤ a) × (a + s ≤ d + s * n)) ⊎ IsMade s fresh_block ds a

abbrev pub num_made : ℕ → List ℕ → ℕ
num_made n [] = 0
num_made n (d ∷ ds) = n + num_made fresh_block ds

-- without a block the next allocation makes one
abbrev pub HasRoom : ℕ → List ℕ → Type 0
HasRoom n [] = n ≡ fresh_block
HasRoom n (d ∷ ds) = Unit

-- the free list from `a` on
abbrev pub Frees : (ℕ → ℕ) → ℕ → List ℕ → Type 0
Frees next a [] = a ≡ 0
Frees next a (x ∷ xs) = (a ≡ x) × (x ≢ 0) × Frees next (next x) xs

-- blocks and elements do not overlap, and every element that was handed out is in use or free
pub record IsPool (p : PoolAlloc) (used free : List ℕ) : Type 0 where
  pub size : 1 ≤ p.sizeof_t
  pub blocks : AreApart (p.sizeof_t * fresh_block) p.head
  pub block_pos : All (λ d. d ≢ 0) p.head
  pub nextel_le : p.nextel ≤ fresh_block
  pub has_room : HasRoom p.nextel p.head
  pub frees : Frees p.next p.pool free
  pub apart : AreApart p.sizeof_t (used ++ free)
  pub made : All (IsMade p.sizeof_t p.nextel p.head) (used ++ free)
  pub count : length used + length free ≡ num_made p.nextel p.head

pub IsMade-pos : (s n : ℕ) (ds : List ℕ) (a : ℕ) → All (λ d. d ≢ 0) ds → IsMade s n ds a → a ≢ 0
IsMade-pos s n [] a h m = elim m [ ]
IsMade-pos s n (d ∷ ds) a (ne, h) (inl m) = λ e. ne (omega (arith, m.0, e))
IsMade-pos s n (d ∷ ds) a (ne, h) (inr m) = IsMade-pos s fresh_block ds a h m
