-- ===== src/MarkIndex/Count.antt =====
-- A `MarkIndex` of src/fsmstate.cc as it grows: what marking keeps, and how much is left to mark.
use colm.Prelude.{
  ℕ, zero, suc, ◌*◌, ◌^◌, ◌≤◌, ◌<◌, ◌≡◌, ◌⊎◌, inl, inr, Bool-cases, refl, sym, ap, ◌∙◌, List, [],
  ◌∷◌, Option, Bool, true, false, none, some, arith, if◌then◌else◌, length, get_elem?, set,
  length-set, length-replicate,
}
use colm.MarkIndex.{MarkIndex, int_value, pair_pos, mark_pair, read_at, is_pair_marked}
use colm.MarkIndex.Pairs.{
  IsSquare, place, place_lt, pair_pos-place, pair_pos-some, new_index, marked, is_same_pair,
  is_pair_marked-mark_pair,
}

-- an index for `n` states
pub record IsIndex (n : ℕ) (marks : MarkIndex) : Type 0 where
  pub num_eq : marks.num_states ≡ n
  pub square : IsSquare marks
  pub room : n * n < 2 ^ 31

-- the places that are not marked
abbrev pub falses : List Bool → ℕ
falses [] = 0
falses (true ∷ xs) = falses xs
falses (false ∷ xs) = suc (falses xs)

pub falses_le : (xs : List Bool) → falses xs ≤ length xs
falses_le [] = omega arith
falses_le (true ∷ xs) = omega (arith, falses_le xs)
falses_le (false ∷ xs) = omega (arith, falses_le xs)

get_lt : (xs : List Bool) (i : ℕ) → i < length xs → (b : Bool) × (get_elem? xs i ≡ some b)
get_lt [] i h = absurd (omega arith)
get_lt (x ∷ xs) zero h = (x, refl)
get_lt (x ∷ xs) (suc i) h = get_lt xs i (omega arith)

set_kept :
    (xs : List Bool) (i j : ℕ)
    → get_elem? xs j ≡ some true
    → get_elem? (set xs i true) j ≡ some true
set_kept [] i j h = h
set_kept (x ∷ xs) zero zero h = refl
set_kept (x ∷ xs) zero (suc j) h = h
set_kept (x ∷ xs) (suc i) zero h = h
set_kept (x ∷ xs) (suc i) (suc j) h = set_kept xs i j h

set_own : (xs : List Bool) (i : ℕ) → i < length xs → get_elem? (set xs i true) i ≡ some true
set_own [] i h = absurd (omega arith)
set_own (x ∷ xs) zero h = refl
set_own (x ∷ xs) (suc i) h = set_own xs i (omega arith)

falses-set :
    (xs : List Bool) (i : ℕ) → get_elem? xs i ≡ some false → falses (set xs i true) < falses xs
falses-set [] i h = let e : none ≡ some false = h in cc
falses-set (false ∷ xs) zero h = omega arith
falses-set (true ∷ xs) zero h = let e : some true ≡ some false = h in cc
falses-set (true ∷ xs) (suc i) h = falses-set xs i h
falses-set (false ∷ xs) (suc i) h = omega (arith, falses-set xs i h)

read_kept :
    (xs : List Bool) (i : ℕ) (at : Option ℕ)
    → read_at xs at ≡ some true
    → read_at (set xs i true) at ≡ some true
read_kept xs i none h = h
read_kept xs i (some j) h = set_kept xs i j h

module _ (n : ℕ) (marks : MarkIndex) (is : IsIndex n marks) where
  pos_lt : (i j : ℕ) → i < n → j < n → place marks.num_states i j < length marks.array
  pos_lt i j hi hj =
      let lt =
        place_lt marks.num_states i j (omega (arith, is.num_eq)) (omega (arith, is.num_eq)) in
      omega (arith, lt, is.square)

  pos_some :
      (i j : ℕ) → i < n → j < n → pair_pos marks.num_states i j ≡ some (place marks.num_states i j)
  pos_some i j hi hj =
      pair_pos-some marks.num_states i j
        (let sq = ap (λ k. k * k) is.num_eq in omega (arith, is.room, sq))
        (omega (arith, is.num_eq)) (omega (arith, is.num_eq))

  pub is_pair_marked_lt :
      (i j : ℕ) → i < n → j < n → (b : Bool) × (is_pair_marked marks i j ≡ some b)
  unfolding is_pair_marked
  is_pair_marked_lt i j hi hj =
      let (b, e) = get_lt marks.array (place marks.num_states i j) (pos_lt i j hi hj) in
      (b, ap (read_at marks.array) (pos_some i j hi hj) ∙ e)

  pub mark_pair-some : (i j : ℕ) → i < n → j < n → mark_pair i j marks ≡ some (marked i j marks)
  mark_pair-some i j hi hj =
      (is_pair_marked-mark_pair marks.num_states i j
        (let sq = ap (λ k. k * k) is.num_eq in omega (arith, is.room, sq))
        (omega (arith, is.num_eq)) (omega (arith, is.num_eq)) i j marks.array
        (omega (arith, is.num_eq)) (omega (arith, is.num_eq)) is.square).0

  pub marked-IsIndex : (i j : ℕ) → IsIndex n (marked i j marks)
  marked-IsIndex i j = record {
    num_eq = is.num_eq;
    square = length-set marks.array (place marks.num_states i j) true ∙ is.square;
    room = is.room;
  }

  pub marked_own : (i j : ℕ) → i < n → j < n → is_pair_marked (marked i j marks) i j ≡ some true
  unfolding is_pair_marked
  marked_own i j hi hj =
      ap (read_at (set marks.array (place marks.num_states i j) true)) (pos_some i j hi hj)
      ∙ set_own marks.array (place marks.num_states i j) (pos_lt i j hi hj)

  pub falses-marked :
      (i j : ℕ)
      → i < n
      → j < n
      → is_pair_marked marks i j ≡ some false
      → falses (marked i j marks).array < falses marks.array
  unfolding is_pair_marked
  falses-marked i j hi hj h =
      falses-set marks.array (place marks.num_states i j)
        (sym (ap (read_at marks.array) (pos_some i j hi hj)) ∙ h)

pub marked_kept :
    (marks : MarkIndex) (i j a b : ℕ)
    → is_pair_marked marks a b ≡ some true
    → is_pair_marked (marked i j marks) a b ≡ some true
unfolding is_pair_marked
marked_kept marks i j a b h =
    read_kept marks.array (place marks.num_states i j) (pair_pos marks.num_states a b) h

pos_comm : (n i j : ℕ) → pair_pos n i j ≡ pair_pos n j i
pos_comm n i j = pair_pos-place n i j ∙ ap int_value (same_place n i j) ∙ sym (pair_pos-place n j i)
  where
    same_place : (n i j : ℕ) → place n i j ≡ place n j i
    same_place n i j = grind arith

pub is_pair_marked_comm :
    (marks : MarkIndex) (i j : ℕ) → is_pair_marked marks i j ≡ is_pair_marked marks j i
unfolding is_pair_marked
is_pair_marked_comm marks i j = ap (read_at marks.array) (pos_comm marks.num_states i j)

pub new_index-IsIndex : (n : ℕ) → n * n < 2 ^ 31 → IsIndex n (new_index n)
new_index-IsIndex n room = record {
  num_eq = refl;
  square = length-replicate (n * n) false;
  room = room;
}

-- a pair that is marked afterwards was marked before or is the one that was marked
pub marked_new :
    (n : ℕ) (marks : MarkIndex) (i j a b : ℕ)
    → IsIndex n marks
    → i < n
    → j < n
    → a < n
    → b < n
    → is_pair_marked (marked i j marks) a b ≡ some true
    → (((a ≡ i) × (b ≡ j)) ⊎ ((a ≡ j) × (b ≡ i))) ⊎ (is_pair_marked marks a b ≡ some true)
marked_new n marks i j a b is hi hj ha hb h =
    let e =
      is_pair_marked-mark_pair marks.num_states a b
        (let sq = ap (λ k. k * k) is.num_eq in omega (arith, is.room, sq))
        (omega (arith, is.num_eq)) (omega (arith, is.num_eq)) i j marks.array
        (omega (arith, is.num_eq)) (omega (arith, is.num_eq)) is.square in
    elim (Bool-cases (is_same_pair i j a b)) [
      | inl same ↦ inl (same_pair i j a b same)
      | inr other ↦
          inr
            (ap (λ c. if c then some true else is_pair_marked marks a b) (sym other) ∙ sym e.2 ∙ h)
    ]
  where
    same_pair :
        (i j a b : ℕ) → is_same_pair i j a b ≡ true → ((a ≡ i) × (b ≡ j)) ⊎ ((a ≡ j) × (b ≡ i))
    same_pair i j a b same = ground arith
