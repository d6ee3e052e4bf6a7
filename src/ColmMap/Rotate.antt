-- ===== src/ColmMap/Rotate.antt =====
-- What a rotation does to the order of the elements, to the heights and to the balance.
use colm.Prelude.{ℕ, ◌+◌, ◌≤◌, ◌≡◌, ◌⊎◌, inl, inr, refl, sym, ◌∙◌, Bool, true, false, some, arith}
use colm.ColmMap.{
  MapTree, leaf, node, Frame, left_of, right_of, height, fill, new_height, joined, rotate,
}
use colm.ColmMap.Balance.{inorder, sibling, IsBalanced}
use mathlib.Core.List.{append_assoc}

abbrev pub same_side : Frame → Frame → Bool
same_side (left_of e h r) (left_of e' h' r') = true
same_side (left_of e h r) (right_of l e' h') = false
same_side (right_of l e h) (left_of e' h' r) = false
same_side (right_of l e h) (right_of l' e' h') = true

-- two pairs of subtrees that balance
joined-IsBalanced :
    (t1 t2 t3 t4 : MapTree) (a b c n : ℕ)
    → IsBalanced t1 × IsBalanced t2 × IsBalanced t3 × IsBalanced t4
    → (height t1 ≤ height t2 + 1) × (height t2 ≤ height t1 + 1)
    → (height t3 ≤ height t4 + 1) × (height t4 ≤ height t3 + 1)
    → (new_height (height t1) (height t2) ≤ new_height (height t3) (height t4) + 1)
      × (new_height (height t3) (height t4) ≤ new_height (height t1) (height t2) + 1)
      × (new_height (new_height (height t1) (height t2)) (new_height (height t3) (height t4)) ≡ n)
    → IsBalanced (joined t1 a t2 b t3 c t4) × (height (joined t1 a t2 b t3 c t4) ≡ n)
joined-IsBalanced t1 t2 t3 t4 a b c n (b1, b2, b3, b4) (u, v) (u', v') (x, y, e) =
    (((b1, b2, refl, u, v), (b3, b4, refl, u', v'), refl, x, y), e)

module _ (m s l r : ℕ) (e : m + 1 ≡ new_height l r) where
  outer_right :
      (s ≡ m) ⊎ (s ≡ m + 1)
      → (new_height m s ≤ new_height l r + 1)
        × (new_height l r ≤ new_height m s + 1)
        × (new_height (new_height m s) (new_height l r) ≡ s + 2)
  outer_right h = rw (← e) (ground arith)

  outer_left :
      (s ≡ m) ⊎ (s ≡ m + 1)
      → (new_height l r ≤ new_height s m + 1)
        × (new_height s m ≤ new_height l r + 1)
        × (new_height (new_height l r) (new_height s m) ≡ s + 2)
  outer_left h = rw (← e) (ground arith)

  module _ (u : l ≤ r + 1) (v : r ≤ l + 1) where
    inner_heights :
        s ≡ m
        → (new_height m l ≡ m + 1)
          × (new_height r s ≡ m + 1)
          × (new_height s l ≡ m + 1)
          × (new_height r m ≡ m + 1)
    inner_heights h = (ground arith, ground arith, ground arith, ground arith)

    inner_bounds :
        s ≡ m
        → ((m ≤ l + 1) × (l ≤ m + 1))
          × ((r ≤ m + 1) × (m ≤ r + 1))
          × ((r ≤ s + 1) × (s ≤ r + 1))
          × ((s ≤ l + 1) × (l ≤ s + 1))
    inner_bounds h = (
      (ground arith, ground arith),
      (ground arith, ground arith),
      (ground arith, ground arith),
      (ground arith, ground arith),
    )

both_heights :
    (x y m s : ℕ)
    → x ≡ m + 1
    → y ≡ m + 1
    → s ≡ m
    → (x ≤ y + 1) × (y ≤ x + 1) × (new_height x y ≡ s + 2)
both_heights x y m s e e' h = ground arith

outer_bounds :
    (m s : ℕ) → (s ≡ m) ⊎ (s ≡ m + 1) → ((m ≤ s + 1) × (s ≤ m + 1)) × ((s ≤ m + 1) × (m ≤ s + 1))
outer_bounds m s h = ((ground arith, ground arith), (ground arith, ground arith))

-- the height of the parent's other child, seen from the two ways to rotate
abbrev Sibling : ℕ → ℕ → Bool → Type 0
Sibling m s same = (s ≡ m) ⊎ ((s ≡ m + 1) × (same ≡ true))

outer_case : (m s : ℕ) → Sibling m s true → (s ≡ m) ⊎ (s ≡ m + 1)
outer_case m s (inl e) = inl e
outer_case m s (inr (e, h)) = inr e

inner_case : (m s : ℕ) → Sibling m s false → s ≡ m
inner_case m s (inl e) = e
inner_case m s (inr (e, h)) = cc

-- With heights that differ as `map_rebalance` finds them, it makes a balanced tree of the same
-- elements in the same order, and does not follow a null pointer.
pub rotate-IsBalanced :
    (t : MapTree) (f g : Frame)
    → IsBalanced t
    → IsBalanced (sibling f)
    → IsBalanced (sibling g)
    → height t ≡ height (sibling g) + 1
    → (height (sibling f) ≡ height (sibling g))
      ⊎ ((height (sibling f) ≡ height (sibling g) + 1) × (same_side f g ≡ true))
    → (b : MapTree) × (rotate t f g ≡ some b)
      × IsBalanced b
      × (height b ≡ height (sibling f) + 2)
      × (inorder b ≡ inorder (fill g (fill f t)))
unfolding rotate
rotate-IsBalanced leaf f g b bf bg e c = absurd (omega arith)
rotate-IsBalanced (node t3 n h t4) (right_of t2 p hp) (right_of t1 gp hg) b bf bg e c =
    let c' = outer_case (height t1) (height t2) c in
    let (u, v) =
      joined-IsBalanced t1 t2 t3 t4 gp p n (height t2 + 2) (bg, bf, b.0, b.1)
        (outer_bounds (height t1) (height t2) c').0 (b.3, b.4)
        (outer_right (height t1) (height t2) (height t3) (height t4) (sym e ∙ b.2) c') in
    (joined t1 gp t2 p t3 n t4, refl, u, v, simp append_assoc)
rotate-IsBalanced (node t2 n h t3) (left_of p hp t4) (right_of t1 gp hg) b bf bg e c =
    let c' = inner_case (height t1) (height t4) c in
    let e' = sym e ∙ b.2 in
    let heights = inner_heights (height t1) (height t4) (height t2) (height t3) e' b.3 b.4 c' in
    let bounds = inner_bounds (height t1) (height t4) (height t2) (height t3) e' b.3 b.4 c' in
    let (u, v) =
      joined-IsBalanced t1 t2 t3 t4 gp n p (height t4 + 2) (bg, b.0, b.1, bf) bounds.0 bounds.2
        (both_heights _ _ (height t1) (height t4) heights.0 heights.1 c') in
    (joined t1 gp t2 n t3 p t4, refl, u, v, simp append_assoc)
rotate-IsBalanced (node t2 n h t3) (right_of t1 p hp) (left_of gp hg t4) b bf bg e c =
    let c' = inner_case (height t4) (height t1) c in
    let e' = sym e ∙ b.2 in
    let heights = inner_heights (height t4) (height t1) (height t2) (height t3) e' b.3 b.4 c' in
    let bounds = inner_bounds (height t4) (height t1) (height t2) (height t3) e' b.3 b.4 c' in
    let (u, v) =
      joined-IsBalanced t1 t2 t3 t4 p n gp (height t1 + 2) (bf, b.0, b.1, bg) bounds.3 bounds.1
        (both_heights _ _ (height t4) (height t1) heights.2 heights.3 c') in
    (joined t1 p t2 n t3 gp t4, refl, u, v, simp append_assoc)
rotate-IsBalanced (node t1 n h t2) (left_of p hp t3) (left_of gp hg t4) b bf bg e c =
    let c' = outer_case (height t4) (height t3) c in
    let (u, v) =
      joined-IsBalanced t1 t2 t3 t4 n p gp (height t3 + 2) (b.0, b.1, bf, bg) (b.3, b.4)
        (outer_bounds (height t4) (height t3) c').1
        (outer_left (height t4) (height t3) (height t1) (height t2) (sym e ∙ b.2) c') in
    (joined t1 n t2 p t3 gp t4, refl, u, v, simp append_assoc)
