-- ===== src/Ranges.antt =====
-- Lists of key ranges: the out list of an `FsmState` (src/fsmgraph.h, `TransList`, a list of
-- `FsmTrans` with `lowKey` and `highKey`) and the `RedTransList` of src/redfsm.h, by what stands
-- on each range.
use colm.Prelude.{
  Bool, ℕ, suc, ◌≤◌, ◌<◌, ◌≡◌, refl, List, [], ◌∷◌, ◌++◌, Option, none, some, ◌&&◌, leb,
  if◌then◌else◌, arith,
}
use colm.Key.{key_mod}

pub record Range {ℓ} (A : Type ℓ) : Type ℓ where
  pub low_key : ℕ
  pub high_key : ℕ
  pub item : A

module _ {ℓ} {A : Type ℓ} where
  abbrev pub range : ℕ → ℕ → A → Range A
  range l h a = record { low_key = l; high_key = h; item = a }

  -- is the key in the range?
  abbrev pub covers : Range A → ℕ → Bool
  covers r k = leb r.low_key k && leb k r.high_key

  -- what the machine takes on a key: the first range that holds it
  abbrev pub lookup : ℕ → List (Range A) → Option A
  lookup k [] = none
  lookup k (r ∷ rs) = if covers r k then some r.item else lookup k rs

  -- ascending ranges, none empty and no two overlapping, from the key `b` on
  abbrev pub IsAscending : ℕ → List (Range A) → Type 0
  IsAscending b [] = Unit
  IsAscending b (r ∷ rs) =
      (b ≤ r.low_key)
      × (r.low_key ≤ r.high_key)
      × (r.high_key < key_mod)
      × IsAscending (suc r.high_key) rs

  pub IsAscending-le : (a b : ℕ) (rs : List (Range A)) → a ≤ b → IsAscending b rs → IsAscending a rs
  IsAscending-le a b [] h s = tt
  IsAscending-le a b (r ∷ rs) h s = (omega arith, s.1, s.2, s.3)

  pub lookup_below : (k b : ℕ) (rs : List (Range A)) → IsAscending b rs → k < b → lookup k rs ≡ none
  lookup_below k b [] s h = refl
  lookup_below k b (r ∷ rs) s h = ground (arith, lookup_below k (suc r.high_key) rs s.3)

  -- the first of two results
  abbrev pub or_some : Option A → Option A → Option A
  or_some (some a) b = some a
  or_some none b = b

  pub lookup-append :
      (k : ℕ) (xs ys : List (Range A)) → lookup k (xs ++ ys) ≡ or_some (lookup k xs) (lookup k ys)
  lookup-append k [] ys = refl
  lookup-append k (r ∷ xs) ys = ground (arith, lookup-append k xs ys)

  -- every range holds one key
  abbrev pub IsSingles : List (Range A) → Type 0
  IsSingles [] = Unit
  IsSingles (r ∷ rs) = (r.low_key ≡ r.high_key) × IsSingles rs

  pub IsSingles-append :
      (xs ys : List (Range A)) → IsSingles xs → IsSingles ys → IsSingles (xs ++ ys)
  IsSingles-append [] ys p q = q
  IsSingles-append (r ∷ xs) ys p q = (p.0, IsSingles-append xs ys p.1 q)
