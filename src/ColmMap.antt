-- ===== src/ColmMap.antt =====
-- src/map.c: the maps of the run time, AVL trees whose elements stand in a linked list, too.
--
-- The pointers `left`, `right` and `parent` of the elements are kept as a tree. A pointer to an
-- element is its place in the tree: the subtree below it, and the frames of the way up to the
-- root, the parent's first; a child's pointer to its parent and the parent's pointer to the child
-- are one. The elements are addresses, 0 is null, and their keys are read by `key`, since these
-- functions write no key. A null pointer that is followed and an assertion that fails are `none`.
-- A height is a `long`, which no tree in memory fills; `tree_size` wraps.
pub mod Insert
pub mod Detach
pub mod Balance
pub mod Rotate
pub mod Settle
pub mod Grow
pub mod Turn
pub mod Shrink
pub mod Order
pub mod Attach
pub mod Search
pub mod TakeOut
pub mod Find
pub mod Keys
pub mod Roundtrip
pub mod Depth
use colm.Prelude.{ℕ, ◌+◌, Bool, ◌||◌, Option, none, some, List, [], ◌∷◌, ◌==◌, ltb, if◌then◌else◌}
use colm.Links.{Links}

-- `left`, the element, its `height` and `right`
pub data MapTree : Type 0 where
  leaf : MapTree
  node : MapTree → ℕ → ℕ → MapTree → MapTree

-- a parent without the child that the way comes from, its left child or its right one
pub data Frame : Type 0 where
  left_of : ℕ → ℕ → MapTree → Frame
  right_of : MapTree → ℕ → ℕ → Frame

-- `map_t`
pub record ColmMap : Type 0 where
  pub root : MapTree
  pub tree_size : ℕ
  pub links : Links

-- `t ? t->height : 0`
abbrev pub height : MapTree → ℕ
height leaf = 0
height (node l e h r) = h

abbrev pub frame_el : Frame → ℕ
frame_el (left_of e h r) = e
frame_el (right_of l e h) = e

abbrev pub frame_height : Frame → ℕ
frame_height (left_of e h r) = h
frame_height (right_of l e h) = h

abbrev pub with_height : ℕ → Frame → Frame
with_height h' (left_of e h r) = left_of e h' r
with_height h' (right_of l e h) = right_of l e h'

-- the parent with its child
abbrev pub fill : Frame → MapTree → MapTree
fill (left_of e h r) t = node t e h r
fill (right_of l e h) t = node l e h t

-- the whole tree
abbrev pub plug : MapTree → List Frame → MapTree
plug t [] = t
plug t (f ∷ way) = plug (fill f t) way

-- `(lheight > rheight ? lheight : rheight) + 1`
abbrev pub new_height : ℕ → ℕ → ℕ
new_height lheight rheight = (if ltb rheight lheight then lheight else rheight) + 1

-- `balance_prop < -1 || balance_prop > 1`
abbrev pub unbalanced : ℕ → ℕ → Bool
unbalanced lheight rheight = ltb (lheight + 1) rheight || ltb (rheight + 1) lheight

-- the height that a parent gets, and whether it is out of balance, with a child of height `n`
abbrev pub height_over : ℕ → Frame → ℕ
height_over n (left_of e h r) = new_height n (height r)
height_over n (right_of l e h) = new_height (height l) n

abbrev pub unbalanced_over : ℕ → Frame → Bool
unbalanced_over n (left_of e h r) = unbalanced n (height r)
unbalanced_over n (right_of l e h) = unbalanced (height l) n

-- `map_recalc_heights` of the parent of a child of height `n`
unfoldable pub recalc_heights : ℕ → List Frame → List Frame
recalc_heights n [] = []
recalc_heights n (f ∷ way) =
    if height_over n f == frame_height f
    then f ∷ way
    else with_height (height_over n f) f ∷ recalc_heights (height_over n f) way

-- the rotation of `map_rebalance`: `b` over `a` and `c`, and the heights of the three
abbrev pub joined : MapTree → ℕ → MapTree → ℕ → MapTree → ℕ → MapTree → MapTree
joined t1 a t2 b t3 c t4 =
    let aheight = new_height (height t1) (height t2) in
    let cheight = new_height (height t3) (height t4) in
    node (node t1 a aheight t2) b (new_height aheight cheight) (node t3 c cheight t4)

-- which elements become `a`, `b` and `c`, from `n`, its parent and its grandparent
unfoldable pub rotate : MapTree → Frame → Frame → Option MapTree
rotate leaf f g = none
rotate (node t3 n h t4) (right_of t2 p hp) (right_of t1 gp hg) = some (joined t1 gp t2 p t3 n t4)
rotate (node t2 n h t3) (left_of p hp t4) (right_of t1 gp hg) = some (joined t1 gp t2 n t3 p t4)
rotate (node t2 n h t3) (right_of t1 p hp) (left_of gp hg t4) = some (joined t1 p t2 n t3 gp t4)
rotate (node t1 n h t2) (left_of p hp t3) (left_of gp hg t4) = some (joined t1 n t2 p t3 gp t4)

-- `map_rebalance`, which returns the great grandparent: the way up from `b`
unfoldable pub map_rebalance : MapTree → List Frame → Option (MapTree × List Frame)
unfolding rotate recalc_heights
map_rebalance n [] = none
map_rebalance n (f ∷ []) = none
map_rebalance n (f ∷ g ∷ way) = elim (rotate n f g) [
  | none ↦ none
  | some b ↦ some (b, recalc_heights (height b) way)
]
