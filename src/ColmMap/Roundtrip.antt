-- ===== src/ColmMap/Roundtrip.antt =====
-- A search behind an insertion, and behind a detachment.
use Prim.Native.Nat.{Ordering}
use Prim.Native.Nat.Ordering.{eq}
use colm.Prelude.{
  ℕ, ◌≡◌, ◌≢◌, ◌⊎◌, inl, inr, sym, ◌∙◌, ap, true, false, Option, none, some, List, ◌∷◌, ◌++◌,
}
use colm.Links.Chain.{has}
use colm.Links.Sequence.{has_self}
use colm.ColmMap.{MapTree, node, Frame, ColmMap, plug}
use colm.ColmMap.Insert.{map_impl_find, map_insert_el}
use colm.ColmMap.Detach.{map_detach_by_key}
use colm.ColmMap.Balance.{inorder}
use colm.ColmMap.Order.{before, after, IsKeyOrder, Below, Above, IsSorted, IsSorted-split}
use colm.ColmMap.Attach.{IsMap, place_order}
use colm.ColmMap.Search.{map_insert_el-Inserted}
use colm.ColmMap.Find.{map_impl_find-Found}
use colm.ColmMap.TakeOut.{map_detach-IsMap}
use mathlib.Core.Path.{subst}
use colm.ColmMap.Keys.{
  lt-ne-eq, has-append_right, either_has, Above-has, Below-has, one_of_key, no_key,
}

module _ {K : Type 0} (cmp : K → K → Ordering) (key : ℕ → K) where
  module _ (o : IsKeyOrder cmp) where
    module _ (map : ColmMap) (m : IsMap cmp key map) where
      -- the search for the key of an element of the map finds that element
      find-has :
          (element : ℕ)
          → has element (inorder map.root) ≡ true
          → (l : MapTree) × (h : ℕ) × (r : MapTree) × (way : List Frame) × (map_impl_find cmp key
                map
                (key element)
              ≡ some (node l element h r, way))
            × (plug (node l element h r) way ≡ map.root)
      find-has element here = elim (map_impl_find-Found cmp key o map (key element) m) [
        | inl (l, found, h, r, way, e, root, same) ↦
            let there : has found (inorder map.root) ≡ true =
              ap (has found) (place_order cmp key map l found h r way root)
              ∙ has-append_right found (before way ++ inorder l) (found ∷ (inorder r ++ after way))
                  (has_self found (inorder r ++ after way)) in
            let one =
              one_of_key cmp key o element found (inorder map.root) m.sorted here there same in
            (
              l,
              h,
              r,
              way,
              e ∙ ap (λ y. some (node l y h r, way)) (sym one),
              ap (λ y. plug (node l y h r) way) one ∙ root,
            )
        | inr (xs, ys, e, order, lo, hi) ↦ absurd (
            no_key cmp key o (key element) element xs ys lo hi (ap (has element) (sym order) ∙ here)
              (o.cmp_refl (key element)))
      ]

      -- a key that no two elements leave: the one that has it is gone
      key_gone :
          (k : K) (element found : ℕ) (xs ys : List ℕ)
          → inorder map.root ≡ xs ++ element ∷ ys
          → cmp k (key element) ≡ eq
          → has found (xs ++ ys) ≡ true
          → cmp k (key found) ≢ eq
      key_gone k element found xs ys order e h e' =
          let (s1, lo, hi, s2) =
            IsSorted-split cmp key xs element ys (subst (IsSorted cmp key) order m.sorted) in
          elim (either_has found xs ys h) [
            | inl low ↦ lt-ne-eq (
                sym (
                  o.eq_lt_trans k (key found) (key element) e'
                    (Below-has cmp key (key element) found xs low lo))
                ∙ e)
            | inr high ↦ lt-ne-eq (
                sym (
                  o.eq_lt_trans k (key element) (key found) e
                    (Above-has cmp key (key element) found ys high hi))
                ∙ e')
          ]

    -- For a comparison that orders the keys, a well-formed map and a new element, not null and not
    -- in the map: when `map_insert_el` has inserted the element, `map_impl_find` of its key finds it.
    pub map_impl_find-map_insert_el :
        (map map' : ColmMap) (element : ℕ)
        → element ≢ 0
        → has element (inorder map.root) ≡ false
        → IsMap cmp key map
        → map_insert_el cmp key map element ≡ some (element, element, map')
        → (l : MapTree) × (h : ℕ) × (r : MapTree) × (way : List Frame) × (map_impl_find cmp key map'
              (key element)
            ≡ some (node l element h r, way))
          × (plug (node l element h r) way ≡ map'.root)
    map_impl_find-map_insert_el map map' element pos out m e =
        elim (map_insert_el-Inserted cmp key o map element pos out m) [
          | inl (made, xs, ys, e', m', order, order') ↦
              let same : made ≡ map' = third (sym e' ∙ e) in
              let here : has element (inorder made.root) ≡ true =
                ap (has element) order'
                ∙ has-append_right element xs (element ∷ ys) (has_self element ys) in
              find-has map' (subst (IsMap cmp key) same m') element
                (subst (λ n. has element (inorder n.root) ≡ true) same here)
          | inr (found, e', there, same) ↦ absurd (pos (sym (first (sym e' ∙ e))))
        ]
      where
        third :
            {a b c d : ℕ} {x y : ColmMap}
            → ◌≡◌ {A = Option (ℕ × ℕ × ColmMap)} (some (a, b, x)) (some (c, d, y))
            → x ≡ y
        third h = cc

        first :
            {a b c d : ℕ} {x y : ColmMap}
            → ◌≡◌ {A = Option (ℕ × ℕ × ColmMap)} (some (a, b, x)) (some (c, d, y))
            → a ≡ c
        first h = cc

    -- what `map_detach_by_key` answers: the element with the key, which is then not to be found, or
    -- null, where all keys are less or greater
    abbrev pub DetachedByKey : ColmMap → K → Option (Option ℕ × ColmMap) → Type 0
    DetachedByKey map k r =
        ((element : ℕ) × (map' : ColmMap) × (xs : List ℕ) × (ys : List ℕ) × (r
            ≡ some (some element, map'))
          × IsMap cmp key map'
          × (cmp k (key element) ≡ eq)
          × (inorder map.root ≡ xs ++ element ∷ ys)
          × (inorder map'.root ≡ xs ++ ys)
          × (map_impl_find cmp key map' k ≡ none))
        ⊎ ((xs : List ℕ) × (ys : List ℕ) × (r ≡ some (none, map))
            × (inorder map.root ≡ xs ++ ys)
            × Below cmp key k xs
            × Above cmp key k ys)

    -- For a comparison that orders the keys and a well-formed map: `map_detach_by_key` succeeds. It
    -- detaches and returns the element with the key, and keeps all others in a well-formed map in
    -- which the key is not found any more; or it returns null and leaves the map, and each key of
    -- the map is less than the key or greater.
    pub map_detach_by_key-Detached :
        (map : ColmMap) (k : K)
        → IsMap cmp key map
        → DetachedByKey map k (map_detach_by_key cmp key map k)
    unfolding map_detach_by_key
    map_detach_by_key-Detached map k m = elim (map_impl_find-Found cmp key o map k m) [
      | inl (l, element, h, r, way, e, root, same) ↦
          let (map', xs, ys, e', m', order, order') =
            map_detach-IsMap cmp key map l element h r way root m in
          inl (
            element,
            map',
            xs,
            ys,
            rw (e, map_detach_by_key) (rw e'),
            m',
            same,
            order,
            order',
            elim (map_impl_find-Found cmp key o map' k m') [
              | inl (l2, found, h2, r2, way2, e2, root2, same2) ↦
                  let there : has found (inorder map'.root) ≡ true =
                    ap (has found) (place_order cmp key map' l2 found h2 r2 way2 root2)
                    ∙ has-append_right found (before way2 ++ inorder l2)
                        (found ∷ (inorder r2 ++ after way2))
                        (has_self found (inorder r2 ++ after way2)) in
                  absurd (
                    key_gone map m k element found xs ys order same
                      (ap (has found) (sym order') ∙ there) same2)
              | inr (xs2, ys2, e2, order2, lo, hi) ↦ e2
            ],
          )
      | inr (xs, ys, e, order, lo, hi) ↦ inr (xs, ys, rw (e, map_detach_by_key), order, lo, hi)
    ]
