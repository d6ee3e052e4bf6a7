-- ===== src/ColmMap/Grow.antt =====
-- The heights and the balance above a subtree that has grown by one level.
use colm.Prelude.{
  ℕ, ◌+◌, ◌≤◌, ◌≡◌, inl, inr, refl, sym, ◌∙◌, ap, true, false, some, List, [], ◌∷◌, ◌==◌, arith,
  Bool-cases,
}
use colm.ColmMap.{
  MapTree, Frame, left_of, right_of, height, frame_height, with_height, fill, plug, new_height,
  unbalanced, height_over, unbalanced_over, recalc_heights,
}
use colm.ColmMap.Insert.{find_first_unbal_gp, settle}
use colm.ColmMap.Balance.{
  inorder, sibling, IsBalanced, IsBalancedWay, height_over_lem, fill-IsBalanced, height-fill,
  plug-IsBalanced, recalc_heights_same, recalc_heights_changed, with_height_lem,
  recalc_heights-recalc_heights, find_first_unbal_gp-none,
}
use colm.ColmMap.Rotate.{rotate-IsBalanced}
use mathlib.Core.Path.{subst, ap₂}
use colm.ColmMap.Settle.{
  low_sibling, heights_3, heights_2, differ, inorder-plug, rotate-with_height,
  unbalanced_over-with_height, unbalanced_over_lem, recalc_heights_cons, settle-none, settle_step,
  settle-rotate, Settled, TopFits,
}

-- the grandparent is out of balance: one rotation sets all heights back
grow_rotate :
    (t : MapTree) (f g : Frame) (n : ℕ) (way : List Frame)
    → IsBalanced t
    → IsBalanced (sibling f)
    → height t ≡ n + 1
    → height (sibling f) ≡ n
    → frame_height f ≡ n + 2
    → unbalanced_over (n + 2) g ≡ true
    → IsBalancedWay (n + 1) (g ∷ way)
    → (r : MapTree) × (settle t (f ∷ recalc_heights (n + 2) (g ∷ way)) ≡ some r)
      × IsBalanced r
      × (inorder r ≡ inorder (plug t (f ∷ g ∷ way)))
grow_rotate t f g n way bt bf ht hf ff unb (w0, w1, w2, w3, w4) =
    let low =
      low_sibling n (height (sibling g)) (sym (unbalanced_over_lem (n + 2) g) ∙ unb) w2 w3 in
    let over = height_over_lem (n + 2) g ∙ heights_3 n (height (sibling g)) low in
    let stored = w1 ∙ height_over_lem (n + 1) g ∙ heights_2 n (height (sibling g)) low in
    let changed = recalc_heights_changed (n + 2) g way (rw (over, stored) (differ n)) in
    let g' = with_height (height_over (n + 2) g) g in
    let (b, rotated, bb, hb, order) =
      rotate-IsBalanced t f g bt bf w0 (ht ∙ ap (λ i. i + 1) (sym low)) (inl (hf ∙ sym low)) in
    let top : height b ≡ frame_height g = hb ∙ ap (λ i. i + 2) hf ∙ sym stored in
    let back = recalc_heights-recalc_heights (frame_height g) (height_over (n + 2) g) way w4 in
    (
      plug b way,
      ap (λ w. settle t (f ∷ w)) changed
          ∙ settle-rotate t b f g' (recalc_heights (height_over (n + 2) g) way)
              (ap (λ i. unbalanced_over i g') ff
                ∙ unbalanced_over-with_height (n + 2) (height_over (n + 2) g) g
                ∙ unb)
              (rotate-with_height t f g (height_over (n + 2) g) ∙ rotated)
          ∙ ap (λ w. some (plug b w))
              (ap (λ i. recalc_heights i (recalc_heights (height_over (n + 2) g) way)) top ∙ back),
      plug-IsBalanced b way bb (subst (λ i. IsBalancedWay i way) (sym top) w4),
      inorder-plug b (fill g (fill f t)) way order,
    )

not_low : (i s : ℕ) → unbalanced (i + 2) s ≡ false → i + 1 ≤ s
not_low i s h = ground arith

-- the parent gets one level higher, with the frame `f`
grow_parent :
    (t : MapTree) (f : Frame) (n : ℕ) (way : List Frame)
    → IsBalanced t
    → IsBalanced (sibling f)
    → height t ≡ n + 1
    → height (sibling f) ≡ n
    → frame_height f ≡ n + 2
    → IsBalanced (fill f t)
    → IsBalancedWay (n + 1) way
    → (TopFits (n + 1) way → Settled (fill f t) way)
    → (r : MapTree) × (settle t (f ∷ recalc_heights (n + 2) way) ≡ some r)
      × IsBalanced r
      × (inorder r ≡ inorder (plug t (f ∷ way)))
unfolding recalc_heights
grow_parent t f n [] bt bf ht hf ff whole w ih =
    (fill f t, settle-none t (f ∷ []) (unfold find_first_unbal_gp in refl), whole, refl)
grow_parent t f n (g ∷ way) bt bf ht hf ff whole w ih =
    elim (Bool-cases (unbalanced_over (n + 2) g)) [
      | inl unb ↦ grow_rotate t f g n way bt bf ht hf ff unb w
      | inr fine ↦
          let (rest, e) = recalc_heights_cons (n + 2) g way in
          let g' = with_height (height_over (n + 2) g) g in
          let (r, ends, br, order) =
            ih (not_low n (height (sibling g)) (sym (unbalanced_over_lem (n + 2) g) ∙ fine)) in
          (
            r,
            ap (λ w. settle t (f ∷ w)) e
                ∙ settle_step t f g' rest (
                    ap (λ i. unbalanced_over i g') ff
                    ∙ unbalanced_over-with_height (n + 2) (height_over (n + 2) g) g
                    ∙ fine)
                ∙ ap (λ w. settle (fill f t) w) (sym e)
                ∙ ap (λ i. settle (fill f t) (recalc_heights i (g ∷ way)))
                    (sym (height-fill f t ∙ ff))
                ∙ ends,
            br,
            order,
          )
    ]

module _ (n s : ℕ) where
  same_bounds :
      new_height (n + 1) s ≡ new_height n s → s ≤ n + 1 → (n + 1 ≤ s + 1) × (s ≤ n + 1 + 1)
  same_bounds e u = ground arith

  changed_sibling : (new_height (n + 1) s == new_height n s) ≡ false → n ≤ s → s ≡ n
  changed_sibling h u = ground arith

  new_heights : s ≡ n → (new_height (n + 1) s ≡ n + 2) × (new_height n s ≡ n + 1)
  new_heights e = (ground arith, ground arith)

pub eq_of_test : (a b : ℕ) → (a == b) ≡ true → a ≡ b
eq_of_test a b h = ground arith

pub sibling-with_height : (k : ℕ) (f : Frame) → sibling (with_height k f) ≡ sibling f
sibling-with_height k (left_of e h r) = refl
sibling-with_height k (right_of l e h) = refl

pub inorder-fill :
    (k : ℕ) (f : Frame) (t : MapTree) → inorder (fill (with_height k f) t) ≡ inorder (fill f t)
inorder-fill k (left_of e h r) t = refl
inorder-fill k (right_of l e h) t = refl

-- a parent that stays as high as it was, and one that gets higher
Settled-same :
    (t : MapTree) (f : Frame) (n : ℕ) (way : List Frame)
    → IsBalanced t
    → height t ≡ n + 1
    → IsBalancedWay n (f ∷ way)
    → height_over (height t) f ≡ frame_height f
    → Settled t (f ∷ way)
Settled-same t f n way bt ht (w0, w1, w2, w3, w4) same =
    let s = height (sibling f) in
    let e : new_height (n + 1) s ≡ new_height n s =
      ap (λ i. new_height i s) (sym ht)
      ∙ sym (height_over_lem (height t) f)
      ∙ same
      ∙ w1
      ∙ height_over_lem n f in
    let (u, v) = same_bounds n s e w3 in
    let w' : IsBalancedWay (height t) (f ∷ way) = (w0, sym same, rw ht u, rw ht v, w4) in
    (
      plug t (f ∷ way),
      ap (settle t) (recalc_heights_same (height t) f way same)
          ∙ settle-none t (f ∷ way) (find_first_unbal_gp-none t (height t) (f ∷ way) w'),
      plug-IsBalanced t (f ∷ way) bt w',
      refl,
    )

parent_facts :
    (t : MapTree) (f : Frame) (n : ℕ)
    → IsBalanced t
    → IsBalanced (sibling f)
    → height t ≡ n + 1
    → frame_height f ≡ height_over n f
    → n ≤ height (sibling f)
    → (height_over (height t) f == frame_height f) ≡ false
    → (height (sibling f) ≡ n)
      × (height_over (height t) f ≡ n + 2)
      × (frame_height f ≡ n + 1)
      × IsBalanced (fill (with_height (n + 2) f) t)
parent_facts t f n bt bf ht w1 fits other =
    let s = height (sibling f) in
    let e1 = height_over_lem (height t) f ∙ ap (λ i. new_height i s) ht in
    let e2 = w1 ∙ height_over_lem n f in
    let hf : s ≡ n = changed_sibling n s (sym (ap₂ ◌==◌ e1 e2) ∙ other) fits in
    let (a, b) = new_heights n s hf in
    let f' = with_height (n + 2) f in
    let (over, stored, back) = with_height_lem (height t) (n + 2) f in
    let sib = sibling-with_height (n + 2) f in
    (
      hf,
      e1 ∙ a,
      e2 ∙ b,
      fill-IsBalanced f' t bt (rw sib bf) (stored ∙ sym (over ∙ e1 ∙ a)) (rw sib (omega arith))
          (rw sib (omega arith)),
    )

-- The tree above a place whose subtree has grown by one level, with the other child of its parent
-- not lower than it was, is balanced again after one rotation at most, with all its elements in
-- their order.
pub settle-Settled :
    (t : MapTree) (n : ℕ) (way : List Frame)
    → IsBalanced t
    → height t ≡ n + 1
    → IsBalancedWay n way
    → TopFits n way
    → Settled t way
unfolding recalc_heights
settle-Settled t n [] bt ht w fits =
    (t, settle-none t [] (unfold find_first_unbal_gp in refl), bt, refl)
settle-Settled t n (f ∷ way) bt ht (w0, w1, w2, w3, w4) fits =
    elim (Bool-cases (height_over (height t) f == frame_height f)) [
      | inl same ↦ Settled-same t f n way bt ht (w0, w1, w2, w3, w4) (eq_of_test _ _ same)
      | inr other ↦
          let f' = with_height (n + 2) f in
          let (hf, over, ff, whole) = parent_facts t f n bt w0 ht w1 fits other in
          let w' = subst (λ i. IsBalancedWay i way) ff w4 in
          let (r, ends, br, order) =
            grow_parent t f' n way bt (rw (sibling-with_height (n + 2) f) w0) ht
              (ap height (sibling-with_height (n + 2) f) ∙ hf) (with_height_lem n (n + 2) f).1 whole
              w'
              (settle-Settled (fill f' t) (n + 1) way whole
                (omega (arith, height-fill f' t ∙ (with_height_lem n (n + 2) f).1)) w') in
          (
            r,
            ap (settle t) (recalc_heights_changed (height t) f way other)
                ∙ ap (λ i. settle t (with_height i f ∷ recalc_heights i way)) over
                ∙ ends,
            br,
            order ∙ inorder-plug (fill f' t) (fill f t) way (inorder-fill (n + 2) f t),
          )
    ]
