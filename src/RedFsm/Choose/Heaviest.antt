-- ===== src/RedFsm/Choose/Heaviest.antt =====
-- What is chosen weighs most, as it is counted.
use mathlib.Core.Path.{subst}
use colm.Prelude.{
  ℕ, suc, ◌≤◌, ◌≡◌, refl, sym, ap, ◌∙◌, List, [], ◌∷◌, some, Bool, true, arith, ltb, ◌==◌,
  if◌then◌else◌, length, replicate, map, Bool-cases, inl, inr, ltb→lt, ltb→le,
}
use colm.Ranges.{Range, lookup}
use colm.RedFsm.Choose.{trans_set, add_at, find_max, add_weights, choose_heaviest}
use colm.RedFsm.Choose.Sets.{
  is_in, IsAddresses, trans_set-IsAddresses, is_in-trans_set, map_zero, map_ext,
}

module _ (plus : ℕ → ℕ → ℕ) (greater : ℕ → ℕ → Bool) where
  -- what stands at an address, with an amount added at `v`
  abbrev added : ℕ → ℕ → (ℕ → ℕ) → ℕ → ℕ
  added v w f x = if v == x then plus (f x) w else f x

  -- adding at an address below the set changes nothing
  map_above :
      (v w x : ℕ) (f : ℕ → ℕ) (set : List ℕ)
      → IsAddresses (suc x) set
      → (v == x) ≡ true
      → map f set ≡ map (added v w f) set
  map_above v w x f set s e = map_ext f (added v w f) (suc x) set s (λ y le. ground (arith, e))

  add_at-map :
      (v w b : ℕ) (f : ℕ → ℕ) (set : List ℕ)
      → IsAddresses b set
      → add_at plus greater v w set (map f set) ≡ map (added v w f) set
  unfolding add_at
  add_at-map v w b f [] s = refl
  add_at-map v w b f (x ∷ set) s =
      ground (arith, add_at-map v w (suc x) f set s.1, map_above v w x f set s.1)

  -- the maximum: what the result weighs is no less than the bound before or any entry
  find_max-map :
      (f : ℕ → ℕ)
      → ((x n : ℕ) → greater (f x) n ≡ ltb n (f x))
      → (t m v : ℕ) (set : List ℕ) → m ≤ f t
      → m ≤ f (find_max plus greater t m set (map f set))
        × (is_in v set ≡ true → f v ≤ f (find_max plus greater t m set (map f set)))
  unfolding find_max
  find_max-map f test t m v [] h = (h, λ h. cc)
  find_max-map f test t m v (x ∷ set) h = elim (Bool-cases (ltb m (f x))) [
    | inl e ↦
        let (up, all) = find_max-map f test x (f x) v set (omega arith) in
        let lt = ltb→lt m (f x) e in rw (test x m, e) (omega arith, λ h. ground (arith, all))
    | inr e ↦
        let (up, all) = find_max-map f test t m v set h in
        let le = ltb→le m (f x) e in rw (test x m, e) (up, λ h. ground (arith, all))
  ]

  module _ (weight : Range ℕ → ℕ) where
    -- what the ranges of a transition weigh together, on top of `acc`, as it is counted
    abbrev pub word_weight : ℕ → ℕ → List (Range ℕ) → ℕ
    word_weight acc x [] = acc
    word_weight acc x (r ∷ rs) = word_weight (if r.item == x then plus acc (weight r) else acc) x rs

    add_weights-map :
        (f : ℕ → ℕ) (rs : List (Range ℕ)) (set : List ℕ)
        → IsAddresses 0 set
        → add_weights plus greater weight rs set (map f set) ≡ map (λ x. word_weight (f x) x rs) set
    unfolding add_weights
    add_weights-map f [] set s = refl
    add_weights-map f (r ∷ rs) set s =
        ap (add_weights plus greater weight rs set) (add_at-map r.item (weight r) 0 f set s)
        ∙ add_weights-map (added r.item (weight r) f) rs set s

    pub choose_heaviest-word_weight :
        (k v : ℕ) (rs : List (Range ℕ))
        → ((x n : ℕ) → greater (word_weight 0 x rs) n ≡ ltb n (word_weight 0 x rs))
        → lookup k rs ≡ some v
        → word_weight 0 v rs ≤ word_weight 0 (choose_heaviest plus greater weight rs) rs
    unfolding choose_heaviest
    choose_heaviest-word_weight k v rs test found =
        let set : List ℕ = trans_set rs [] in
        let s : IsAddresses 0 set = trans_set-IsAddresses rs [] tt in
        let f : ℕ → ℕ = λ x. word_weight 0 x rs in
        let table : add_weights plus greater weight rs set (replicate {A = ℕ} (length set) 0)
            ≡ map f set =
          ap (add_weights plus greater weight rs set) (map_zero set)
          ∙ add_weights-map (λ x. 0) rs set s in
        subst (λ t. f v ≤ f (find_max plus greater 0 0 set t)) (sym table)
          ((find_max-map f test 0 0 v set (omega arith)).1 (is_in-trans_set k v rs [] found))
