-- ===== src/ColmMap/Insert.antt =====
-- src/map.c: insertion into a map, and the search for a key.
use Prim.Native.Nat.{Ordering}
use Prim.Native.Nat.Ordering.{lt, eq, gt}
use colm.Prelude.{ℕ, ◌+◌, ◌%◌, ◌^◌, Option, none, some, List, [], ◌∷◌, ◌==◌, if◌then◌else◌}
use colm.Links.{Links, list_add_after, list_add_before}
use colm.ColmMap.{
  MapTree, leaf, node, Frame, left_of, right_of, ColmMap, frame_el, frame_height, unbalanced_over,
  fill, plug, recalc_heights, map_rebalance,
}

-- `mapFindFirstUnbalGP`
unfoldable pub find_first_unbal_gp : MapTree → List Frame → Option (MapTree × List Frame)
find_first_unbal_gp t [] = none
find_first_unbal_gp t (f ∷ []) = none
find_first_unbal_gp t (f ∷ g ∷ way) =
    let rest = find_first_unbal_gp (fill f t) (g ∷ way) in
    if unbalanced_over (frame_height f) g then some (t, f ∷ g ∷ way) else rest

-- the search for an element out of balance above `t`, and the rotation if there is one
unfoldable pub settle : MapTree → List Frame → Option MapTree
unfolding find_first_unbal_gp map_rebalance
settle t way = elim (find_first_unbal_gp t way) [
  | none ↦ some (plug t way)
  | some (n, up) ↦ elim (map_rebalance n up) [ none ↦ none | some (b, up') ↦ some (plug b up') ]
]

-- the tree after the heights and the balance are set right above a new leaf
unfoldable pub attach_tree : ℕ → List Frame → Option MapTree
unfolding recalc_heights settle
attach_tree element way = settle (node leaf element 1 leaf) (recalc_heights 1 way)

-- `parent_el->left = element` and `parent_el->right = element`, for a parent whose child on the
-- way is null
abbrev pub set_left : Frame → Frame
set_left (left_of e h r) = left_of e h r
set_left (right_of l e h) = left_of e h leaf

abbrev pub set_right : Frame → Frame
set_right (left_of e h r) = right_of leaf e h
set_right (right_of l e h) = right_of l e h

-- where the element goes, as the last step of the search says
unfoldable pub attach_way : List Frame → ℕ → List Frame
attach_way [] last_less = []
attach_way (f ∷ way) last_less = (if last_less == frame_el f then set_left f else set_right f) ∷ way

unfoldable pub attach_links : ℕ → List Frame → ℕ → Links → Links
attach_links element [] last_less links = list_add_after links.tail element links
attach_links element (f ∷ way) last_less links =
    if last_less == frame_el f
    then list_add_before (frame_el f) element links
    else list_add_after (frame_el f) element links

-- `map_attach_rebal`; the way begins with `parent_el`
unfoldable pub map_attach_rebal : ColmMap → ℕ → List Frame → ℕ → Option ColmMap
map_attach_rebal map element way last_less = elim (attach_tree element (attach_way way last_less)) [
  | none ↦ none
  | some root' ↦ some (record map {
    root = root';
    tree_size = (map.tree_size + 1) % 2 ^ 64;
    links = attach_links element way last_less map.links;
  })
]

module _ {K : Type 0} (cmp : K → K → Ordering) (key : ℕ → K) where
  -- the loop of `map_insert_el`; what it returns, `*last_found` and the map
  unfoldable pub insert_at : ColmMap → ℕ → MapTree → List Frame → ℕ → Option (ℕ × ℕ × ColmMap)
  insert_at map element leaf way last_less = elim (map_attach_rebal map element way last_less) [
    | none ↦ none
    | some map' ↦ some (element, element, map')
  ]
  insert_at map element (node l cur h r) way last_less = elim (cmp (key element) (key cur)) [
    | lt ↦ insert_at map element l (left_of cur h r ∷ way) cur
    | gt ↦ insert_at map element r (right_of l cur h ∷ way) last_less
    | eq ↦ some (0, cur, map)
  ]

  unfoldable pub map_insert_el : ColmMap → ℕ → Option (ℕ × ℕ × ColmMap)
  map_insert_el map element = insert_at map element map.root [] 0

  -- the loop of `map_impl_find`
  unfoldable pub find_at : K → MapTree → List Frame → Option (MapTree × List Frame)
  find_at k leaf way = none
  find_at k (node l cur h r) way = elim (cmp k (key cur)) [
    | lt ↦ find_at k l (left_of cur h r ∷ way)
    | gt ↦ find_at k r (right_of l cur h ∷ way)
    | eq ↦ some (node l cur h r, way)
  ]

  unfoldable pub map_impl_find : ColmMap → K → Option (MapTree × List Frame)
  unfolding find_at
  map_impl_find map k = find_at k map.root []
