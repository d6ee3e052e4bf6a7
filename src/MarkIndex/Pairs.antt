-- ===== src/MarkIndex/Pairs.antt =====
-- A `MarkIndex` holds a set of unordered pairs.
use colm.Prelude.{
  ℕ, replicate, zero, suc, ◌+◌, ◌*◌, ◌^◌, ◌<◌, ◌≡◌, ap, ◌∙◌, List, [], ◌∷◌, Bool, true, false, none,
  Option, leb, sym, some, arith, ◌==◌, ◌&&◌, ◌||◌, if◌then◌else◌, length, get_elem?, set,
  length-set, length-replicate, get_elem?-replicate,
}
use colm.MarkIndex.{
  MarkIndex, int_value, mark_index, pair_pos, write_at, mark_pair, read_at, is_pair_marked,
}

get_elem?-set-true :
    (xs : List Bool) (i j : ℕ)
    → j < length xs
    → get_elem? (set xs i true) j ≡ (if i == j then some true else get_elem? xs j)
get_elem?-set-true [] i j h = absurd (omega arith)
get_elem?-set-true (x ∷ xs) zero zero h = ground arith
get_elem?-set-true (x ∷ xs) zero (suc j) h = ground arith
get_elem?-set-true (x ∷ xs) (suc i) zero h = ground arith
get_elem?-set-true (x ∷ xs) (suc i) (suc j) h = ground (arith, get_elem?-set-true xs i j)

-- a pair of digits is found in its number
digits_lt : (n a b c d : ℕ) → b < n → d < n → a < c → a * n + b < c * n + d
digits_lt n a b c d hb hd lt = grind arith

below_square : (n a b : ℕ) → a < n → b < n → a * n + b < n * n
below_square n a b ha hb = grind arith

-- the position of a pair as a number without a bound
abbrev pub place : ℕ → ℕ → ℕ → ℕ
place n s t = if leb t s then s * n + t else t * n + s

pub pair_pos-place : (n s t : ℕ) → pair_pos n s t ≡ int_value (place n s t)
unfolding pair_pos
pair_pos-place n s t = ground arith

-- the pairs (s, t) and (a, b) are the same up to order
abbrev pub is_same_pair : ℕ → ℕ → ℕ → ℕ → Bool
is_same_pair s t a b = (s == a && t == b) || (s == b && t == a)

-- the array has a place for every pair
abbrev pub IsSquare : MarkIndex → Type 0
IsSquare marks = length marks.array ≡ marks.num_states * marks.num_states

pub place_lt : (n s t : ℕ) → s < n → t < n → place n s t < n * n
place_lt n s t hs ht = ground (arith, below_square n s t hs ht, below_square n t s ht hs)

-- different pairs have different positions
digits_eq : (n a b c d : ℕ) → b < n → d < n → (a * n + b == c * n + d) ≡ (a == c && b == d)
digits_eq n a b c d hb hd = ground (arith, digits_lt n a b c d hb hd, digits_lt n c d a b hd hb)

place_eq :
    (n s t a b : ℕ)
    → s < n
    → t < n
    → a < n
    → b < n
    → (place n s t == place n a b) ≡ is_same_pair s t a b
place_eq n s t a b hs ht ha hb = ground (
  arith,
  digits_eq n s t a b ht hb,
  digits_eq n s t b a ht ha,
  digits_eq n t s a b hs hb,
  digits_eq n t s b a hs ha,
)

pub pair_pos-some :
    (n s t : ℕ) → n * n < 2 ^ 31 → s < n → t < n → pair_pos n s t ≡ some (place n s t)
pair_pos-some n s t room hs ht =
    let lt = place_lt n s t hs ht in pair_pos-place n s t ∙ within (place n s t) (omega (arith, lt))
  where
    within : (p : ℕ) → p < 2 ^ 31 → int_value p ≡ some p
    within p h = ground arith

-- an index without a mark, and one with another mark
abbrev pub new_index : ℕ → MarkIndex
new_index n = record { num_states = n; array = replicate (n * n) false }

abbrev pub marked : ℕ → ℕ → MarkIndex → MarkIndex
marked s t marks = record marks { array = set marks.array (place marks.num_states s t) true }

pub mark_index-some : (n : ℕ) → n * n < 2 ^ 31 → mark_index n ≡ some (new_index n)
unfolding mark_index
mark_index-some n room = within (n * n) room
  where
    within :
        (k : ℕ)
        → k < 2 ^ 31
        → ◌≡◌ {A = Option MarkIndex}
            (elim (int_value k) [
              | none ↦ none
              | some total ↦ some (record { num_states = n; array = replicate total false })
            ])
            (some (record { num_states = n; array = replicate k false }))
    within k h = ground arith

module _ (n a b : ℕ) (room : n * n < 2 ^ 31) (la : a < n) (lb : b < n) where
  -- For two states of `n`, a new index is an array of a place for every pair, in which the pair is
  -- not marked.
  pub is_pair_marked-new_index :
      IsSquare (new_index n) × (is_pair_marked (new_index n) a b ≡ some false)
  unfolding is_pair_marked
  is_pair_marked-new_index = (
    length-replicate (n * n) false,
    ap (read_at (replicate (n * n) false)) (pair_pos-some n a b room la lb)
        ∙ get_elem?-replicate (n * n) (place n a b) false (place_lt n a b la lb),
  )

  -- For states below the number of states of an index with a place for every pair, as many as an
  -- `int` holds: marking a pair keeps the places, marks the pair in both orders, and leaves every
  -- other pair as it was.
  pub is_pair_marked-mark_pair :
      (s t : ℕ) (array : List Bool)
      → s < n
      → t < n
      → length array ≡ n * n
      → (mark_pair s t (record { num_states = n; array = array })
          ≡ some (marked s t (record { num_states = n; array = array })))
        × IsSquare (marked s t (record { num_states = n; array = array }))
        × (is_pair_marked (marked s t (record { num_states = n; array = array })) a b ≡ (
            if is_same_pair s t a b
            then some true
            else is_pair_marked (record { num_states = n; array = array }) a b))
  unfolding mark_pair is_pair_marked
  is_pair_marked-mark_pair s t array hs ht square =
      let old : MarkIndex = record { num_states = n; array = array } in
      let at = pair_pos-some n a b room la lb in
      let inside = place_lt n s t hs ht in
      (
        ap (write_at old) (pair_pos-some n s t room hs ht)
            ∙ in_array (place n s t) (omega (arith, inside, square)),
        length-set array (place n s t) true ∙ square,
        ap (read_at (set array (place n s t) true)) at
            ∙ get_elem?-set-true array (place n s t) (place n a b)
                (omega (arith, place_lt n a b la lb, square))
            ∙ ap (λ c. if c then some true else get_elem? array (place n a b))
                (place_eq n s t a b hs ht la lb)
            ∙ ap (λ (o : Option Bool). if is_same_pair s t a b then some true else o)
                (sym (ap (read_at array) at)),
      )
    where
      in_array :
          (p : ℕ)
          → p < length array
          → write_at (record { num_states = n; array = array }) (some p)
            ≡ some (record { num_states = n; array = set array p true })
      in_array p h = ground arith
