-- ===== src/RedFsm/Flat.antt =====
-- The table of `makeFlat` of src/redfsm.cc answers as the ranges and the default do.
use colm.Prelude.{
  ℕ, zero, suc, ◌+◌, ◌-◌, ◌≤◌, ◌<◌, ◌≡◌, refl, ap, sym, ◌∙◌, List, [], ◌∷◌, Option, none, some,
  arith, ltb, leb, ◌==◌, ◌&&◌, if◌then◌else◌, length, get_elem?, set, replicate, map, length-set,
  length-replicate, get_elem?-replicate,
}
use mathlib.Core.Option
use mathlib.Core.Path.{subst}
use colm.Key.{key_mod, span, span-eq}
use colm.Ranges.{Range, lookup, lookup_below, IsAscending}
use colm.Gaps.{IsWithin}
use colm.RedFsm.{RedState, write_run, write_ranges, last_high, fill_default, make_flat}

get_elem?-set :
    (xs : List ℕ) (i j v : ℕ)
    → j < length xs
    → get_elem? (set xs i v) j ≡ (if i == j then some v else get_elem? xs j)
get_elem?-set [] i j v h = absurd (omega arith)
get_elem?-set (x ∷ xs) zero zero v h = ground arith
get_elem?-set (x ∷ xs) zero (suc j) v h = ground arith
get_elem?-set (x ∷ xs) (suc i) zero v h = ground arith
get_elem?-set (x ∷ xs) (suc i) (suc j) v h = ground (arith, get_elem?-set xs i j v)

length-write_run : (n at v : ℕ) (xs : List ℕ) → length (write_run n at v xs) ≡ length xs
unfolding write_run
length-write_run zero at v xs = refl
length-write_run (suc n) at v xs = length-write_run n (at + 1) v (set xs at v) ∙ length-set xs at v

-- a run of writes changes the entries from `at` on, `n` of them
get_elem?-write_run :
    (n at v j : ℕ) (xs : List ℕ)
    → j < length xs
    → get_elem? (write_run n at v xs) j
      ≡ (if leb at j && ltb j (at + n) then some v else get_elem? xs j)
unfolding write_run
get_elem?-write_run zero at v j xs h = ground arith
get_elem?-write_run (suc n) at v j xs h = ground (
  arith,
  get_elem?-write_run n (at + 1) v j (set xs at v),
  length-set xs at v,
  get_elem?-set xs at j v,
)

length-write_ranges :
    (low : ℕ) (rs : List (Range ℕ)) (xs : List ℕ) → length (write_ranges low rs xs) ≡ length xs
unfolding write_ranges
length-write_ranges low [] xs = refl
length-write_ranges low (r ∷ rs) xs =
    length-write_ranges low rs _
    ∙ length-write_run (span r.low_key r.high_key) (span low r.low_key - 1) r.item xs

-- what a range put at a key, or else what stood there
abbrev written : Option ℕ → Option ℕ → Option ℕ
written none old = old
written (some v) old = some v

get_elem?-write_ranges :
    (low k b : ℕ) (rs : List (Range ℕ)) (xs : List ℕ)
    → IsAscending b rs
    → IsWithin (low + length xs - 1) rs
    → low ≤ b
    → length xs < key_mod
    → low ≤ k
    → k - low < length xs
    → get_elem? (write_ranges low rs xs) (k - low) ≡ written (lookup k rs) (get_elem? xs (k - low))
unfolding write_ranges
get_elem?-write_ranges low k b [] xs u w lb fits lk inside = refl
get_elem?-write_ranges low k b (r ∷ rs) xs u w lb fits lk inside =
    let n = span r.low_key r.high_key in
    let at = span low r.low_key - 1 in
    let ys = write_run n at r.item xs in
    let len = length-write_run n at r.item xs in
    let width = span-eq r.low_key r.high_key u.1 u.2 (omega arith) in
    let start = span-eq low r.low_key (omega arith) (omega arith) (omega arith) in
    get_elem?-write_ranges low k (suc r.high_key) rs ys u.3 (rw len w.1) (omega arith)
      (omega (arith, len)) lk (omega (arith, len))
    ∙ ground (
      arith,
      get_elem?-write_run n at r.item (k - low) xs,
      width,
      start,
      lookup_below k (suc r.high_key) rs u.3,
    )

last_high-IsWithin :
    (b : ℕ) (r : Range ℕ) (rs : List (Range ℕ))
    → IsAscending b (r ∷ rs)
    → IsWithin (last_high r rs) (r ∷ rs)
      × (r.high_key ≤ last_high r rs)
      × (last_high r rs < key_mod)
last_high-IsWithin b r [] u = omega arith
last_high-IsWithin b r (s ∷ rs) u =
    let (w, le, fits) = last_high-IsWithin (suc r.high_key) s rs u.3 in
    let below : r.high_key ≤ last_high s rs = omega arith in ((below, w), below, fits)

get_elem?-map :
    (f : ℕ → ℕ) (xs : List ℕ) (i : ℕ) → get_elem? (map f xs) i ≡ Option.map f (get_elem? xs i)
get_elem?-map f [] i = refl
get_elem?-map f (x ∷ xs) zero = refl
get_elem?-map f (x ∷ xs) (suc i) = get_elem?-map f xs i

-- the entry for a key on which the ranges have `found`
abbrev pub flat_entry : ℕ → Option ℕ → ℕ
flat_entry d none = d
flat_entry d (some v) = fill_default d v

module _ (d : ℕ) (r : Range ℕ) (rs : List (Range ℕ)) (single : List (Range ℕ)) where
  abbrev pub flat_state : RedState
  flat_state = record { out_single = single; out_range = r ∷ rs; def_trans = d }

  -- For ascending ranges whose keys are fewer than 2^64 - 1: the table of `makeFlat` goes from the
  -- first key of the ranges to the last, and its entry for each of these keys is the transition of
  -- the range on the key, or the default transition where no range lies or its transition is null.
  pub make_flat-entries :
      (k b : ℕ)
      → IsAscending b (r ∷ rs)
      → last_high r rs - r.low_key < key_mod - 2
      → r.low_key ≤ k
      → k ≤ last_high r rs
      → ((make_flat flat_state).low_key ≡ r.low_key)
        × ((make_flat flat_state).high_key ≡ last_high r rs)
        × (get_elem? (make_flat flat_state).trans_list (k - r.low_key)
            ≡ some (flat_entry d (lookup k (r ∷ rs))))
  unfolding make_flat
  make_flat-entries k b u narrow lo hi =
      let (w, le, fits) = last_high-IsWithin b r rs u in
      let top = last_high r rs in
      let blank : List ℕ = replicate (span r.low_key top) 0 in
      let width = span-eq r.low_key top (omega arith) fits (omega arith) in
      let len = length-replicate {A = ℕ} (span r.low_key top) 0 in
      let size : length blank ≡ top - r.low_key + 1 = len ∙ width in
      let end : r.low_key + length blank - 1 ≡ top = omega (arith, size) in
      let old : get_elem? blank (k - r.low_key) ≡ some 0 =
        get_elem?-replicate (span r.low_key top) (k - r.low_key) 0 (omega (arith, width)) in
      (
        refl,
        refl,
        get_elem?-map (fill_default d) (write_ranges r.low_key (r ∷ rs) blank) (k - r.low_key)
            ∙ ap (Option.map (fill_default d)) (
                get_elem?-write_ranges r.low_key k r.low_key (r ∷ rs) blank
                  (omega arith, u.1, u.2, u.3) (subst (λ t. IsWithin t (r ∷ rs)) (sym end) w)
                  (omega arith) (omega (arith, size)) lo (omega (arith, size)))
            ∙ ground (arith, old),
      )
