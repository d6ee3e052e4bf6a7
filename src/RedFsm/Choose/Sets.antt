-- ===== src/RedFsm/Choose/Sets.antt =====
-- The set of the transitions of a state in src/redfsm.cc, and tables over it.
use colm.Prelude.{
  ℕ, suc, ◌≤◌, ◌<◌, ◌≡◌, refl, ap, List, [], ◌∷◌, some, Bool, true, false, arith, ◌==◌, ◌||◌,
  length, replicate, map,
}
use colm.Ranges.{Range, lookup}
use colm.RedFsm.Choose.{insert_trans, trans_set}

abbrev pub is_in : ℕ → List ℕ → Bool
is_in v [] = false
is_in v (x ∷ set) = v == x || is_in v set

-- ascending addresses, from `b` on
abbrev pub IsAddresses : ℕ → List ℕ → Type 0
IsAddresses b [] = Unit
IsAddresses b (x ∷ set) = (b ≤ x) × IsAddresses (suc x) set

pub IsAddresses-le : (a b : ℕ) (set : List ℕ) → a ≤ b → IsAddresses b set → IsAddresses a set
IsAddresses-le a b [] h s = tt
IsAddresses-le a b (x ∷ set) h s = (omega arith, s.1)

pub is_in_below : (v b : ℕ) (set : List ℕ) → IsAddresses b set → v < b → is_in v set ≡ false
is_in_below v b [] s h = refl
is_in_below v b (x ∷ set) s h = ground (arith, is_in_below v (suc x) set s.1)

pub insert_trans-IsAddresses :
    (v b : ℕ) (set : List ℕ) → IsAddresses b set → b ≤ v → IsAddresses b (insert_trans v set)
unfolding insert_trans
insert_trans-IsAddresses v b [] s h = (h, tt)
insert_trans-IsAddresses v b (x ∷ set) s h =
    ground (arith, insert_trans-IsAddresses v (suc x) set s.1)

pub is_in-insert_trans :
    (v w : ℕ) (set : List ℕ) → is_in v (insert_trans w set) ≡ (v == w || is_in v set)
unfolding insert_trans
is_in-insert_trans v w [] = refl
is_in-insert_trans v w (x ∷ set) = ground (arith, is_in-insert_trans v w set)

pub trans_set-IsAddresses :
    (rs : List (Range ℕ)) (set : List ℕ) → IsAddresses 0 set → IsAddresses 0 (trans_set rs set)
unfolding trans_set
trans_set-IsAddresses [] set s = s
trans_set-IsAddresses (r ∷ rs) set s =
    trans_set-IsAddresses rs (insert_trans r.item set)
      (insert_trans-IsAddresses r.item 0 set s (omega arith))

-- the set holds what it held before
pub is_in-trans_set_mono :
    (v : ℕ) (rs : List (Range ℕ)) (set : List ℕ)
    → is_in v set ≡ true
    → is_in v (trans_set rs set) ≡ true
unfolding trans_set
is_in-trans_set_mono v [] set h = h
is_in-trans_set_mono v (r ∷ rs) set h =
    is_in-trans_set_mono v rs (insert_trans r.item set)
      (ground (arith, is_in-insert_trans v r.item set))

pub is_in-trans_set :
    (k v : ℕ) (rs : List (Range ℕ)) (set : List ℕ)
    → lookup k rs ≡ some v
    → is_in v (trans_set rs set) ≡ true
unfolding trans_set
is_in-trans_set k v [] set h = cc
is_in-trans_set k v (r ∷ rs) set h = ground (
  arith,
  is_in-trans_set k v rs (insert_trans r.item set),
  is_in-trans_set_mono v rs (insert_trans r.item set),
  is_in-insert_trans v r.item set,
)

pub map_zero : (set : List ℕ) → replicate {A = ℕ} (length set) 0 ≡ map (λ x. 0) set
map_zero [] = refl
map_zero (x ∷ set) = ap (λ t. 0 ∷ t) (map_zero set)

pub map_ext :
    (f g : ℕ → ℕ) (b : ℕ) (set : List ℕ)
    → IsAddresses b set
    → ((x : ℕ) → b ≤ x → f x ≡ g x)
    → map f set ≡ map g set
map_ext f g b [] s h = refl
map_ext f g b (x ∷ set) s h =
    ground (arith, h x s.0, map_ext f g (suc x) set s.1 (λ y le. h y (omega arith)))
