-- ===== src/Links/Chain.antt =====
-- What the pointers of a linked list stand for: the sequence of its elements.
use colm.Prelude.{ℕ, ◌≡◌, ◌≢◌, refl, Bool, false, ◌||◌, List, [], ◌∷◌, ◌++◌, ◌==◌, arith}
use colm.Links.{Links, update}

-- the element that a sequence begins or ends with, or the neighbour if it is empty
abbrev pub first : List ℕ → ℕ → ℕ
first [] n = n
first (x ∷ xs) n = x

abbrev pub last : ℕ → List ℕ → ℕ
last p [] = p
last p (x ∷ xs) = last x xs

abbrev pub has : ℕ → List ℕ → Bool
has a [] = false
has a (x ∷ xs) = a == x || has a xs

abbrev pub IsDistinct : List ℕ → Type 0
IsDistinct [] = Unit
IsDistinct (x ∷ xs) = (has x xs ≡ false) × IsDistinct xs

-- the elements `xs` stand between `p` and `n`, each pointing to its neighbours
abbrev pub Chain : (ℕ → ℕ) → (ℕ → ℕ) → ℕ → List ℕ → ℕ → Type 0
Chain next prev p [] n = Unit
Chain next prev p (x ∷ xs) n =
    (x ≢ 0) × (prev x ≡ p) × (next x ≡ first xs n) × Chain next prev x xs n

pub record Holds (d : Links) (xs : List ℕ) : Type 0 where
  pub head_eq : d.head ≡ first xs 0
  pub tail_eq : d.tail ≡ last 0 xs
  pub chain : Chain d.next d.prev 0 xs 0
  pub distinct : IsDistinct xs

pub first-append : (xs ys : List ℕ) (n : ℕ) → first (xs ++ ys) n ≡ first xs (first ys n)
first-append [] ys n = refl
first-append (x ∷ xs) ys n = refl

pub last-append : (p : ℕ) (xs ys : List ℕ) → last p (xs ++ ys) ≡ last (last p xs) ys
last-append p [] ys = refl
last-append p (x ∷ xs) ys = last-append x xs ys

pub has-append : (a : ℕ) (xs ys : List ℕ) → has a (xs ++ ys) ≡ (has a xs || has a ys)
has-append a [] ys = refl
has-append a (x ∷ xs) ys = ground (arith, has-append a xs ys)

module _ (next prev : ℕ → ℕ) where
  pub Chain-append :
      (p : ℕ) (xs ys : List ℕ) (n : ℕ)
      → Chain next prev p (xs ++ ys) n
      → Chain next prev p xs (first ys n) × Chain next prev (last p xs) ys n
  Chain-append p [] ys n c = (tt, c)
  Chain-append p (x ∷ xs) ys n (c0, c1, c2, c3) =
      let (c4, c5) = Chain-append x xs ys n c3 in ((c0, c1, rw (← first-append xs ys n) c2, c4), c5)

  pub append-Chain :
      (p : ℕ) (xs ys : List ℕ) (n : ℕ)
      → Chain next prev p xs (first ys n)
      → Chain next prev (last p xs) ys n
      → Chain next prev p (xs ++ ys) n
  append-Chain p [] ys n c d = d
  append-Chain p (x ∷ xs) ys n (c0, c1, c2, c3) d =
      (c0, c1, rw (first-append xs ys n) c2, append-Chain x xs ys n c3 d)

  -- writes to elements outside of a chain
  pub Chain-update_next :
      (a v p : ℕ) (xs : List ℕ) (n : ℕ)
      → has a xs ≡ false
      → Chain next prev p xs n
      → Chain (update next a v) prev p xs n
  Chain-update_next a v p [] n o c = tt
  Chain-update_next a v p (x ∷ xs) n o (c0, c1, c2, c3) =
      (c0, c1, ground arith, Chain-update_next a v x xs n (ground arith) c3)

  pub Chain-update_prev :
      (a v p : ℕ) (xs : List ℕ) (n : ℕ)
      → has a xs ≡ false
      → Chain next prev p xs n
      → Chain next (update prev a v) p xs n
  Chain-update_prev a v p [] n o c = tt
  Chain-update_prev a v p (x ∷ xs) n o (c0, c1, c2, c3) =
      (c0, ground arith, c2, Chain-update_prev a v x xs n (ground arith) c3)

  -- a write to the forward pointer of the last element, and to the reverse pointer of the first
  pub Chain-relink_last :
      (v p x : ℕ) (xs : List ℕ) (n : ℕ)
      → IsDistinct (x ∷ xs)
      → Chain next prev p (x ∷ xs) n
      → Chain (update next (last x xs) v) prev p (x ∷ xs) v
  Chain-relink_last v p x [] n u (c0, c1, c2, c3) = (c0, c1, ground arith, tt)
  Chain-relink_last v p x (y ∷ xs) n u (c0, c1, c2, c3) =
      (c0, c1, ground (arith, has-last x y xs), Chain-relink_last v x y xs n u.1 c3)
    where
      has-last : (z w : ℕ) (ws : List ℕ) → has z (w ∷ ws) ≡ false → (z == last w ws) ≡ false
      has-last z w [] h = ground arith
      has-last z w (w' ∷ ws) h = has-last z w' ws (ground arith)

  pub Chain-relink_first :
      (v p x : ℕ) (xs : List ℕ) (n : ℕ)
      → has x xs ≡ false
      → Chain next prev p (x ∷ xs) n
      → Chain next (update prev x v) v (x ∷ xs) n
  Chain-relink_first v p x xs n o (c0, c1, c2, c3) =
      (c0, ground arith, c2, Chain-update_prev x v x xs n o c3)
