-- ===== src/ColmMap/TakeOut.antt =====
-- What `map_detach` does to a map.
use Prim.Native.Nat.{Ordering}
use colm.Prelude.{
  ℕ, suc, ◌+◌, ◌-◌, ◌%◌, ◌^◌, ◌≡◌, ◌⊎◌, inr, refl, sym, ◌∙◌, ap, some, List, [], ◌∷◌, ◌++◌, length,
  length-append, arith,
}
use colm.Links.{list_detach}
use colm.Links.Chain.{Holds}
use colm.Links.Detach.{list_detach-Holds}
use colm.ColmMap.{MapTree, leaf, node, Frame, left_of, right_of, ColmMap, height, plug, new_height}
use colm.ColmMap.Detach.{leftmost, rightmost, take_out, detach_tree, map_detach}
use colm.ColmMap.Balance.{inorder, IsBalanced, IsBalancedWay}
use colm.ColmMap.Shrink.{fix_up-Fixed}
use colm.ColmMap.Order.{
  before, after, inorder-plug_lem, before-append, after-append, IsSorted, IsSorted-remove,
}
use colm.ColmMap.Attach.{IsMap, place_order}
use mathlib.Core.Path.{subst}
use mathlib.Core.List.{append-nil, append_assoc}

-- the way up from a place of a balanced tree
pub IsBalanced-plug :
    (t : MapTree) (way : List Frame)
    → IsBalanced (plug t way)
    → IsBalanced t × IsBalancedWay (height t) way
IsBalanced-plug t [] b = (b, tt)
IsBalanced-plug t (left_of e h r ∷ way) b =
    let (c, w) = IsBalanced-plug (node t e h r) way b in (c.0, (c.1, c.2, c.3, c.4, w))
IsBalanced-plug t (right_of l e h ∷ way) b =
    let (c, w) = IsBalanced-plug (node l e h t) way b in (c.1, (c.0, c.2, c.4, c.3, w))

small_height : (n m : ℕ) → n ≡ 0 → m ≡ n + 1 → m ≡ 1
small_height n m e e' = omega arith

lone_left : (h r : ℕ) → h ≡ new_height 0 r → h ≡ r + 1
lone_left h r e = ground arith

lone_right : (h l : ℕ) → h ≡ new_height l 0 → h ≡ l + 1
lone_right h l e = ground arith

-- what the child of the replacement leaves: it is one level lower than the replacement was, and
-- the replacement comes first of what is left of the place
leftmost_lem :
    (l : MapTree) (e h : ℕ) (r : MapTree) (inner outer : List Frame)
    → IsBalanced (node l e h r)
    → IsBalancedWay h (inner ++ outer)
    → let (x, t, inner') = leftmost l e h r inner in
      IsBalanced t
      × IsBalancedWay (height t + 1) (inner' ++ outer)
      × (before inner' ≡ before inner)
      × (x ∷ (inorder t ++ after inner') ≡ inorder (node l e h r) ++ after inner)
unfolding leftmost
leftmost_lem leaf e h r inner outer b w =
    (b.1, subst (λ n. IsBalancedWay n (inner ++ outer)) (lone_left h (height r) b.2) w, refl, refl)
leftmost_lem (node ll le lh lr) e h r inner outer b w =
    let (c, v, same, order) =
      leftmost_lem ll le lh lr (left_of e h r ∷ inner) outer b.0 (b.1, b.2, b.3, b.4, w) in
    (c, v, same, order ∙ (simp append_assoc))

rightmost_lem :
    (l : MapTree) (e h : ℕ) (r : MapTree) (inner outer : List Frame)
    → IsBalanced (node l e h r)
    → IsBalancedWay h (inner ++ outer)
    → let (x, t, inner') = rightmost l e h r inner in
      IsBalanced t
      × IsBalancedWay (height t + 1) (inner' ++ outer)
      × (after inner' ≡ after inner)
      × (before inner' ++ inorder t ++ x ∷ [] ≡ before inner ++ inorder (node l e h r))
unfolding rightmost
rightmost_lem l e h leaf inner outer b w = (
  b.0,
  subst (λ n. IsBalancedWay n (inner ++ outer)) (lone_right h (height l) b.2) w,
  refl,
  simp append_assoc,
)
rightmost_lem l e h (node rl re rh rr) inner outer b w =
    let (c, v, same, order) =
      rightmost_lem rl re rh rr (right_of l e h ∷ inner) outer b.1 (b.0, b.2, b.4, b.3, w) in
    (c, v, same, order ∙ (simp append_assoc))

-- the element is gone: what took its place is as high as it was or one level lower
abbrev TakenOut : MapTree → MapTree → List Frame → MapTree × List Frame → Type 0
TakenOut l r way (filler, hole) =
    (n : ℕ) × IsBalanced filler
    × ((height filler ≡ n) ⊎ (height filler + 1 ≡ n))
    × IsBalancedWay n hole
    × (inorder (plug filler hole) ≡ (before way ++ inorder l) ++ (inorder r ++ after way))

take_out_right :
    (l : MapTree) (e h : ℕ) (rl : MapTree) (re rh : ℕ) (rr : MapTree) (way : List Frame)
    → IsBalanced (node l e h (node rl re rh rr))
    → IsBalancedWay h way
    → let (x, t, inner) = leftmost rl re rh rr [] in
      TakenOut l (node rl re rh rr) way (t, inner ++ right_of l x h ∷ way)
take_out_right l e h rl re rh rr way b w =
    let (x, t, inner) = leftmost rl re rh rr [] in
    let outer = right_of l x h ∷ way in
    let (c, v, same, order) = leftmost_lem rl re rh rr [] outer b.1 (b.0, b.2, b.4, b.3, w) in
    let r = node rl re rh rr in
    (
      height t + 1,
      c,
      inr refl,
      v,
      inorder-plug_lem t (inner ++ outer)
          ∙ ap (λ xs. xs ++ inorder t ++ after (inner ++ outer)) (before-append inner outer)
          ∙ ap (λ xs. (before outer ++ before inner) ++ inorder t ++ xs) (after-append inner outer)
          ∙ ap (λ xs. (before outer ++ xs) ++ inorder t ++ (after inner ++ after way)) same
          ∙ (simp (append_assoc, append-nil))
          ∙ ap (λ xs. (before way ++ inorder l) ++ (xs ++ after way)) order
          ∙ (simp (append_assoc, append-nil)),
    )

take_out_left :
    (ll : MapTree) (le lh : ℕ) (lr : MapTree) (e h : ℕ) (way : List Frame)
    → IsBalanced (node (node ll le lh lr) e h leaf)
    → IsBalancedWay h way
    → let (x, t, inner) = rightmost ll le lh lr [] in
      TakenOut (node ll le lh lr) leaf way (t, inner ++ left_of x h leaf ∷ way)
take_out_left ll le lh lr e h way b w =
    let (x, t, inner) = rightmost ll le lh lr [] in
    let outer = left_of x h leaf ∷ way in
    let (c, v, same, order) = rightmost_lem ll le lh lr [] outer b.0 (b.1, b.2, b.3, b.4, w) in
    (
      height t + 1,
      c,
      inr refl,
      v,
      inorder-plug_lem t (inner ++ outer)
          ∙ ap (λ xs. xs ++ inorder t ++ after (inner ++ outer)) (before-append inner outer)
          ∙ ap (λ xs. (before outer ++ before inner) ++ inorder t ++ xs) (after-append inner outer)
          ∙ ap (λ xs. (before outer ++ before inner) ++ inorder t ++ (xs ++ after outer)) same
          ∙ (simp append_assoc)
          ∙ ap (λ xs. before way ++ (xs ++ after way)) order
          ∙ (simp append_assoc),
    )

take_out-TakenOut :
    (l : MapTree) (e h : ℕ) (r : MapTree) (way : List Frame)
    → IsBalanced (node l e h r)
    → IsBalancedWay h way
    → TakenOut l r way (take_out l h r way)
unfolding take_out
take_out-TakenOut leaf e h leaf way b w =
    (h, tt, inr (sym b.2), w, inorder-plug_lem leaf way ∙ (simp append_assoc))
take_out-TakenOut (node ll le lh lr) e h leaf way b w = take_out_left ll le lh lr e h way b w
take_out-TakenOut leaf e h (node rl re rh rr) way b w = take_out_right leaf e h rl re rh rr way b w
take_out-TakenOut (node ll le lh lr) e h (node rl re rh rr) way b w =
    take_out_right (node ll le lh lr) e h rl re rh rr way b w

-- the loop that sets the balance right is given enough fuel
detach_tree_lem :
    (l : MapTree) (e h : ℕ) (r : MapTree) (way : List Frame)
    → IsBalanced (plug (node l e h r) way)
    → (t : MapTree) × (detach_tree l h r way ≡ some t)
      × IsBalanced t
      × (inorder t ≡ (before way ++ inorder l) ++ (inorder r ++ after way))
unfolding detach_tree
detach_tree_lem l e h r way b =
    let (c, w) = IsBalanced-plug (node l e h r) way b in
    let hole = (take_out l h r way).1 in
    let (n, bf, low, wh, order) = take_out-TakenOut l e h r way c w in
    let (t, ends, bt, order') =
      fix_up-Fixed (suc (length hole)) (take_out l h r way).0 n hole bf low wh (omega arith) in
    (t, ends, bt, order' ∙ order)

module _ {K : Type 0} (cmp : K → K → Ordering) (key : ℕ → K) where
  -- For a well-formed map and any element at its place in the tree: `map_detach` ends, no assertion
  -- fails in it and no null pointer is followed. The map is well formed without the element, so that
  -- its tree is balanced with right heights, and keeps all other elements in their order.
  pub map_detach-IsMap :
      (map : ColmMap) (l : MapTree) (element h : ℕ) (r : MapTree) (way : List Frame)
      → plug (node l element h r) way ≡ map.root
      → IsMap cmp key map
      → (map' : ColmMap) × (xs : List ℕ) × (ys : List ℕ) × (map_detach map (node l element h r) way
          ≡ some map')
        × IsMap cmp key map'
        × (inorder map.root ≡ xs ++ element ∷ ys)
        × (inorder map'.root ≡ xs ++ ys)
  unfolding map_detach
  map_detach-IsMap map l element h r way e m =
      let (t, ends, b, order) =
        detach_tree_lem l element h r way (subst IsBalanced (sym e) m.balanced) in
      let xs = before way ++ inorder l in
      let ys = inorder r ++ after way in
      let order' = place_order cmp key map l element h r way e in
      let sorted =
        IsSorted-remove cmp key xs element ys (subst (IsSorted cmp key) order' m.sorted) in
      let holds =
        list_detach-Holds map.links element xs ys (subst (Holds map.links) order' m.holds) in
      (
        record {
          root = t;
          tree_size = (map.tree_size + 2 ^ 64 - 1) % 2 ^ 64;
          links = list_detach element map.links;
        },
        xs,
        ys,
        rw (ends, map_detach),
        record {
          balanced = b;
          sorted = subst (IsSorted cmp key) (sym order) sorted;
          holds = subst (Holds (list_detach element map.links)) (sym order) holds;
          size_eq = omega (
            arith,
            m.size_eq,
            ap length order',
            ap length order,
            length-append xs (element ∷ ys),
            length-append xs ys,
          );
        },
        order',
        order,
      )
