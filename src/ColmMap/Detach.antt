-- ===== src/ColmMap/Detach.antt =====
-- src/map.c: an element is detached from a map.
use Prim.Native.Nat.{Ordering}
use colm.Prelude.{
  ℕ, zero, suc, ◌+◌, ◌-◌, ◌%◌, ◌^◌, Bool, true, false, Option, none, some, List, [], ◌∷◌, ◌++◌,
  length, ◌==◌, ltb, if◌then◌else◌,
}
use colm.Links.{list_detach}
use colm.ColmMap.{
  MapTree, leaf, node, Frame, left_of, right_of, ColmMap, height, unbalanced, fill, plug,
  recalc_heights, map_rebalance,
}
use colm.ColmMap.Insert.{map_impl_find}

-- `map_find_first_unbal_el`
unfoldable pub find_first_unbal_el : MapTree → List Frame → Option (MapTree × List Frame)
find_first_unbal_el leaf way = none
find_first_unbal_el (node l e h r) [] =
    if unbalanced (height l) (height r) then some (node l e h r, []) else none
find_first_unbal_el (node l e h r) (f ∷ way) =
    let rest = find_first_unbal_el (fill f (node l e h r)) way in
    if unbalanced (height l) (height r) then some (node l e h r, f ∷ way) else rest

-- the leftmost element below an element, what stands right of it, and the way back, and the
-- rightmost one
unfoldable pub leftmost : MapTree → ℕ → ℕ → MapTree → List Frame → ℕ × MapTree × List Frame
leftmost leaf e h r way = (e, r, way)
leftmost (node ll le lh lr) e h r way = leftmost ll le lh lr (left_of e h r ∷ way)

unfoldable pub rightmost : MapTree → ℕ → ℕ → MapTree → List Frame → ℕ × MapTree × List Frame
rightmost l e h leaf way = (e, l, way)
rightmost l e h (node rl re rh rr) way = rightmost rl re rh rr (right_of l e h ∷ way)

-- the replacement leaves its place to its child (`map_remove_el`), and takes the place and the
-- height of the element (`map_replace_el`): the child, and the way up from it, which begins with
-- `fixfrom`
unfoldable pub take_out : MapTree → ℕ → MapTree → List Frame → MapTree × List Frame
unfolding leftmost rightmost
take_out leaf h leaf way = (leaf, way)
take_out (node ll le lh lr) h leaf way =
    let (replacement, filler, inner) = rightmost ll le lh lr [] in
    (filler, inner ++ left_of replacement h leaf ∷ way)
take_out l h (node rl re rh rr) way =
    let (replacement, filler, inner) = leftmost rl re rh rr [] in
    (filler, inner ++ right_of l replacement h ∷ way)

-- the second move down from an element out of balance; `right_first` is the direction of the first
unfoldable pub second_move : Bool → MapTree → List Frame → Option (MapTree × List Frame)
second_move right_first leaf way = none
second_move right_first (node l e h r) way =
    if ltb (height l) (height r)
    then some (r, right_of l e h ∷ way)
    else if ltb (height r) (height l)
    then some (l, left_of e h r ∷ way)
    else if right_first
    then some (r, right_of l e h ∷ way)
    else some (l, left_of e h r ∷ way)

-- from an element out of balance two levels down, in the direction of the greatest heights
unfoldable pub move_down : MapTree → List Frame → Option (MapTree × List Frame)
unfolding second_move
move_down leaf way = none
move_down (node l e h r) way =
    if height l == height r
    then none
    else if ltb (height l) (height r)
    then second_move true r (right_of l e h ∷ way)
    else second_move false l (left_of e h r ∷ way)

-- the loop of `map_detach` over the elements out of balance, from the parent of `t` on
unfoldable pub fix_up : ℕ → MapTree → List Frame → Option MapTree
unfolding find_first_unbal_el move_down map_rebalance
fix_up zero t way = none
fix_up (suc fuel) t [] = some t
fix_up (suc fuel) t (f ∷ way) = elim (find_first_unbal_el (fill f t) way) [
  | none ↦ some (plug t (f ∷ way))
  | some (ub, up) ↦ elim (move_down ub up) [
    | none ↦ none
    | some (n, below) ↦ elim (map_rebalance n below) [
      | none ↦ none
      | some (b, up') ↦ fix_up fuel b up'
    ]
  ]
]

-- the tree after the element at a place is taken out
unfoldable pub detach_tree : MapTree → ℕ → MapTree → List Frame → Option MapTree
detach_tree l h r way =
    let (filler, hole) = take_out l h r way in
    fix_up (suc (length hole)) filler (recalc_heights (height filler) hole)

-- `map_detach`
unfoldable pub map_detach : ColmMap → MapTree → List Frame → Option ColmMap
map_detach map leaf way = none
map_detach map (node l element h r) way = elim (detach_tree l h r way) [
  | none ↦ none
  | some root' ↦ some (record map {
    root = root';
    tree_size = (map.tree_size + 2 ^ 64 - 1) % 2 ^ 64;
    links = list_detach element map.links;
  })
]

module _ {K : Type 0} (cmp : K → K → Ordering) (key : ℕ → K) where
  -- `map_detach_by_key`
  unfoldable pub map_detach_by_key : ColmMap → K → Option (Option ℕ × ColmMap)
  map_detach_by_key map k = elim (map_impl_find cmp key map k) [
    | none ↦ some (none, map)
    | some (t, way) ↦ elim t [
      | leaf ↦ none
      | node l element h r ↦ elim (map_detach map (node l element h r) way) [
        | none ↦ none
        | some map' ↦ some (some element, map')
      ]
    ]
  ]
