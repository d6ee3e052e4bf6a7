-- ===== src/ColmMap/Search.antt =====
-- The search for the place of a new element, and what insertion does to a map.
use Prim.Native.Nat.{Ordering}
use Prim.Native.Nat.Ordering.{lt, eq}
use colm.Prelude.{
  ℕ, ◌≡◌, ◌≢◌, ◌⊎◌, inl, inr, refl, sym, ◌∙◌, ap, true, false, ◌||◌, Option, some, List, [], ◌∷◌,
  ◌++◌,
}
use colm.Links.Chain.{has, has-append}
use colm.Links.Sequence.{has_self}
use colm.ColmMap.{MapTree, leaf, node, Frame, left_of, right_of, ColmMap, height, plug}
use colm.ColmMap.Insert.{insert_at, map_insert_el}
use colm.ColmMap.Balance.{inorder, IsBalanced, IsBalancedWay}
use colm.ColmMap.Order.{
  before, after, inorder-plug_lem, IsKeyOrder, Below, Above, IsSorted, IsSorted-split, append-Above,
  append-Below, Above-trans, Below-trans, lt_of_gt,
}
use mathlib.Core.Path.{subst}
use mathlib.Core.List.{append-nil}
use colm.ColmMap.Attach.{
  IsMap, LastLess, or-true, Ordering-cases, attach-IsMap, place_order, place-ne-zero, not_last,
}

module _ {K : Type 0} (cmp : K → K → Ordering) (key : ℕ → K) where
  -- the map with the element between the elements `xs` and `ys`, or the element that has its key
  abbrev pub Inserted : ColmMap → ℕ → Option (ℕ × ℕ × ColmMap) → Type 0
  Inserted map element r =
      ((map' : ColmMap) × (xs : List ℕ) × (ys : List ℕ) × (r ≡ some (element, element, map'))
        × IsMap cmp key map'
        × (inorder map.root ≡ xs ++ ys)
        × (inorder map'.root ≡ xs ++ element ∷ ys))
      ⊎ ((found : ℕ) × (r ≡ some (0, found, map))
          × (has found (inorder map.root) ≡ true)
          × (cmp (key element) (key found) ≡ eq))

  module _ (o : IsKeyOrder cmp) where
    -- the loop of the search, between what is less than the new key and what is greater
    insert_at-Inserted :
        (map : ColmMap) (element : ℕ) (t : MapTree) (way : List Frame) (last_less : ℕ)
        → element ≢ 0
        → IsMap cmp key map
        → plug t way ≡ map.root
        → has element (inorder map.root) ≡ false
        → IsBalanced t
        → IsBalancedWay (height t) way
        → IsSorted cmp key (inorder t)
        → LastLess way last_less
        → (last_less ≡ 0) ⊎ (cmp (key element) (key last_less) ≡ lt)
        → Below cmp key (key element) (before way)
        → Above cmp key (key element) (after way)
        → Inserted map element (insert_at cmp key map element t way last_less)
    unfolding insert_at
    insert_at-Inserted map element leaf way last_less pos m e out b w so s less lo hi =
        let order : inorder map.root ≡ before way ++ after way =
          ap inorder (sym e)
          ∙ inorder-plug_lem leaf way
          ∙ ap (λ xs. xs ++ after way) (append-nil (before way)) in
        let (map', ends, m', order') =
          attach-IsMap cmp key map element way last_less pos m order
            (subst (λ xs. has element xs ≡ false) order out) w s lo hi in
        inl (map', before way, after way, rw (ends, insert_at), m', order, order')
    insert_at-Inserted map element (node l cur h r) way last_less pos m e out b w so s less lo hi =
        let k = key element in
        let order = place_order cmp key map l cur h r way e in
        let (sl, bl, ar, sr) = IsSorted-split cmp key (inorder l) cur (inorder r) so in
        elim (Ordering-cases (cmp k (key cur))) [
          | inl below ↦
              let hi' =
                append-Above cmp key k (inorder r) (after way)
                  (Above-trans cmp key o k (key cur) (inorder r) below ar) hi in
              rw (below, insert_at)
                (insert_at-Inserted map element l (left_of cur h r ∷ way) cur pos m e out b.0
                  (b.1, b.2, b.3, b.4, w) sl refl (inr below) lo (below, hi'))
          | inr (inl same) ↦ inr (
            cur,
            rw (same, insert_at),
            ap (has cur) order
                ∙ has-append cur (before way ++ inorder l) (cur ∷ (inorder r ++ after way))
                ∙ ap (λ t. has cur (before way ++ inorder l) || t)
                    (has_self cur (inorder r ++ after way))
                ∙ or-true (has cur (before way ++ inorder l)),
            same,
          )
          | inr (inr above) ↦
              let less' = lt_of_gt cmp key o k (key cur) above in
              let lo' =
                append-Below cmp key k (before way ++ inorder l) (cur ∷ [])
                  (append-Below cmp key k (before way) (inorder l) lo
                    (Below-trans cmp key o (key cur) k (inorder l) bl less'))
                  (less', tt) in
              let pos' =
                place-ne-zero cmp key map cur (before way ++ inorder l) (inorder r ++ after way) m
                  order in
              rw (above, insert_at)
                (insert_at-Inserted map element r (right_of l cur h ∷ way) last_less pos m e out b.1
                  (b.0, b.2, b.4, b.3, w) sr (not_last cmp key k last_less cur less above pos') less
                  lo' hi)
        ]

    -- For a comparison that orders the keys, a well-formed map and an element that is not null and
    -- not in it: `map_insert_el` follows no null pointer. If an element of the map has the key of
    -- the new one, it returns 0, answers that element, and leaves the map as it was. Else it returns the new
    -- element and puts it between the elements with smaller keys and those with greater ones; the
    -- map stays well formed, so that its tree is balanced, with right heights, and its list is in the order of the tree.
    pub map_insert_el-Inserted :
        (map : ColmMap) (element : ℕ)
        → element ≢ 0
        → has element (inorder map.root) ≡ false
        → IsMap cmp key map
        → Inserted map element (map_insert_el cmp key map element)
    unfolding map_insert_el
    map_insert_el-Inserted map element pos out m =
        insert_at-Inserted map element map.root [] 0 pos m refl out m.balanced tt m.sorted tt
          (inl refl) tt tt
