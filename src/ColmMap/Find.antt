-- ===== src/ColmMap/Find.antt =====
-- The search for a key in a map, and an element detached by its key.
use Prim.Native.Nat.{Ordering}
use Prim.Native.Nat.Ordering.{eq}
use colm.Prelude.{
  ℕ, ◌≡◌, ◌⊎◌, inl, inr, refl, sym, ◌∙◌, ap, Option, none, some, List, [], ◌∷◌, ◌++◌,
}
use colm.ColmMap.{MapTree, leaf, node, Frame, left_of, right_of, ColmMap, plug}
use colm.ColmMap.Insert.{find_at, map_impl_find}
use colm.ColmMap.Balance.{inorder}
use colm.ColmMap.Order.{
  before, after, inorder-plug_lem, IsKeyOrder, Below, Above, IsSorted, IsSorted-split, append-Above,
  append-Below, Above-trans, Below-trans, lt_of_gt,
}
use colm.ColmMap.Attach.{IsMap, Ordering-cases}
use mathlib.Core.List.{append-nil}

module _ {K : Type 0} (cmp : K → K → Ordering) (key : ℕ → K) where
  -- the place of the element with the key, or all keys of the map are less than it or greater
  abbrev pub Found : ColmMap → K → Option (MapTree × List Frame) → Type 0
  Found map k r =
      ((l : MapTree) × (element : ℕ) × (h : ℕ) × (right : MapTree) × (way : List Frame) × (r
          ≡ some (node l element h right, way))
        × (plug (node l element h right) way ≡ map.root)
        × (cmp k (key element) ≡ eq))
      ⊎ ((xs : List ℕ) × (ys : List ℕ) × (r ≡ none)
          × (inorder map.root ≡ xs ++ ys)
          × Below cmp key k xs
          × Above cmp key k ys)

  module _ (o : IsKeyOrder cmp) (map : ColmMap) (k : K) where
    find_at-Found :
        (t : MapTree) (way : List Frame)
        → plug t way ≡ map.root
        → IsSorted cmp key (inorder t)
        → Below cmp key k (before way)
        → Above cmp key k (after way)
        → Found map k (find_at cmp key k t way)
    unfolding find_at
    find_at-Found leaf way e so lo hi = inr (
      before way,
      after way,
      refl,
      ap inorder (sym e)
          ∙ inorder-plug_lem leaf way
          ∙ ap (λ xs. xs ++ after way) (append-nil (before way)),
      lo,
      hi,
    )
    find_at-Found (node l cur h r) way e so lo hi =
        let (sl, bl, ar, sr) = IsSorted-split cmp key (inorder l) cur (inorder r) so in
        elim (Ordering-cases (cmp k (key cur))) [
          | inl below ↦
              let hi' =
                append-Above cmp key k (inorder r) (after way)
                  (Above-trans cmp key o k (key cur) (inorder r) below ar) hi in
              rw (below, find_at) (find_at-Found l (left_of cur h r ∷ way) e sl lo (below, hi'))
          | inr (inl same) ↦ inl (l, cur, h, r, way, rw (same, find_at), e, same)
          | inr (inr above) ↦
              let less = lt_of_gt cmp key o k (key cur) above in
              let lo' =
                append-Below cmp key k (before way ++ inorder l) (cur ∷ [])
                  (append-Below cmp key k (before way) (inorder l) lo
                    (Below-trans cmp key o (key cur) k (inorder l) bl less))
                  (less, tt) in
              rw (above, find_at) (find_at-Found r (right_of l cur h ∷ way) e sr lo' hi)
        ]

    -- For a comparison that orders the keys and a well-formed map: `map_impl_find` finds the place
    -- in the tree of an element with the key, or null, and then each key of the map is less than
    -- the key or greater.
    pub map_impl_find-Found : IsMap cmp key map → Found map k (map_impl_find cmp key map k)
    unfolding map_impl_find
    map_impl_find-Found m = find_at-Found map.root [] refl m.sorted tt tt
