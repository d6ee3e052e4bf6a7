-- ===== src/ColmMap/Shrink.antt =====
-- The heights and the balance above a subtree that has lost a level.
use colm.Prelude.{
  ℕ, zero, suc, ◌+◌, ◌≤◌, ◌<◌, ◌≡◌, ◌⊎◌, inl, inr, refl, sym, ◌∙◌, ap, true, false, some, List, [],
  ◌∷◌, length, ◌==◌, arith, Bool-cases,
}
use colm.ColmMap.{
  MapTree, Frame, left_of, right_of, height, frame_height, with_height, fill, plug, new_height,
  unbalanced, height_over, unbalanced_over, recalc_heights, rotate,
}
use colm.ColmMap.Detach.{find_first_unbal_el, move_down, fix_up}
use colm.ColmMap.Balance.{
  inorder, sibling, IsBalanced, IsBalancedWay, height_over_lem, fill-IsBalanced, height-fill,
  recalc_heights_same, recalc_heights_changed, with_height_lem,
}
use colm.ColmMap.Grow.{sibling-with_height, inorder-fill, eq_of_test}
use colm.ColmMap.Settle.{
  inorder-plug, unbalanced_over-with_height, unbalanced_over_lem, rebalance_lem, with_height_same,
}
use colm.ColmMap.Turn.{IsLower, turn}

-- how the loop steps: over a parent in balance, and by a rotation
fix_skip :
    (fuel : ℕ) (t : MapTree) (f : Frame) (way : List Frame)
    → unbalanced_over (height t) f ≡ false
    → fix_up (suc fuel) t (f ∷ way) ≡ fix_up (suc fuel) (fill f t) way
unfolding fix_up find_first_unbal_el
fix_skip fuel t (left_of e h r) [] fine = rw (fine, fix_up)
fix_skip fuel t (left_of e h r) (g ∷ way) fine = rw (fine, fix_up)
fix_skip fuel t (right_of l e h) [] fine = rw (fine, fix_up)
fix_skip fuel t (right_of l e h) (g ∷ way) fine = rw (fine, fix_up)

find-turned :
    (t : MapTree) (f : Frame) (way : List Frame)
    → unbalanced_over (height t) f ≡ true
    → find_first_unbal_el (fill f t) way ≡ some (fill f t, way)
unfolding find_first_unbal_el
find-turned t (left_of e h r) [] unb = rw (unb, find_first_unbal_el)
find-turned t (left_of e h r) (g ∷ way) unb = rw (unb, find_first_unbal_el)
find-turned t (right_of l e h) [] unb = rw (unb, find_first_unbal_el)
find-turned t (right_of l e h) (g ∷ way) unb = rw (unb, find_first_unbal_el)

fix_turn :
    (fuel : ℕ) (t : MapTree) (f : Frame) (way : List Frame) (n b : MapTree) (g g' : Frame)
    → unbalanced_over (height t) f ≡ true
    → move_down (fill f t) way ≡ some (n, g ∷ g' ∷ way)
    → rotate n g g' ≡ some b
    → fix_up (suc fuel) t (f ∷ way) ≡ fix_up fuel b (recalc_heights (height b) way)
unfolding fix_up
fix_turn fuel t f way n b g g' unb moved turned =
    rw (find-turned t f way unb, fix_up) (rw moved (rw (rebalance_lem n b g g' way turned)))

-- heights that are right stay, so that the first frame can be written alike in both cases
recalc_heights_idem : (n : ℕ) (way : List Frame) → IsBalancedWay n way → recalc_heights n way ≡ way
recalc_heights_idem n [] w = unfold recalc_heights in refl
recalc_heights_idem n (f ∷ way) w = recalc_heights_same n f way (sym w.1)

recalc_heights_step :
    (k : ℕ) (f : Frame) (way : List Frame)
    → IsBalancedWay (frame_height f) way
    → recalc_heights k (f ∷ way)
      ≡ with_height (height_over k f) f ∷ recalc_heights (height_over k f) way
recalc_heights_step k f way w = elim (Bool-cases (height_over k f == frame_height f)) [
  | inl same ↦
      let e = eq_of_test _ _ same in
      recalc_heights_same k f way e
      ∙ ap (λ v. f ∷ v) (sym (recalc_heights_idem (frame_height f) way w))
      ∙ ap (λ g. g ∷ recalc_heights (frame_height f) way) (with_height_same (frame_height f) f refl)
      ∙ ap (λ i. with_height i f ∷ recalc_heights i way) (sym e)
  | inr other ↦ recalc_heights_changed k f way other
]

module _ (k n s : ℕ) (c : (k ≡ n) ⊎ (k + 1 ≡ n)) (u : n ≤ s + 1) (v : s ≤ n + 1) where
  -- a parent in balance is as high as it was or one level lower
  fine_parent :
      unbalanced k s ≡ false
      → ((new_height k s ≡ new_height n s) ⊎ (new_height k s + 1 ≡ new_height n s))
        × (k ≤ s + 1)
        × (s ≤ k + 1)
  fine_parent h = (ground arith, ground arith, ground arith)

  -- one out of balance is as high as it was, since its other child is higher by two
  low_child :
      unbalanced k s ≡ true → (s ≡ k + 2) × (new_height k s ≡ k + 3) × (new_height n s ≡ k + 3)
  low_child h = (ground arith, ground arith, ground arith)

lower_or_same : (k a b : ℕ) → IsLower k a → b ≡ k + 3 → (a ≡ b) ⊎ (a + 1 ≡ b)
lower_or_same k a b (inl e) h = inr (omega arith)
lower_or_same k a b (inr e) h = inl (omega arith)

moved_height : (a b c d : ℕ) → a ≡ c → b ≡ d → (c ≡ d) ⊎ (c + 1 ≡ d) → (a ≡ b) ⊎ (a + 1 ≡ b)
moved_height a b c d e e' (inl h) = inl (omega arith)
moved_height a b c d e e' (inr h) = inr (omega arith)

-- what `fix_up` makes of a subtree `t`, when the heights above are right again
abbrev pub Fixed : ℕ → MapTree → List Frame → Type 0
Fixed fuel t way =
    (r : MapTree) × (fix_up fuel t (recalc_heights (height t) way) ≡ some r)
    × IsBalanced r
    × (inorder r ≡ inorder (plug t way))

-- Above a place whose subtree has stayed as high as it was or lost one level the loop ends within
-- a round for each ancestor and one more, no assertion fails and no null pointer is followed, and
-- the tree is balanced again, with all its elements in their order.
pub fix_up-Fixed :
    (fuel : ℕ) (t : MapTree) (n : ℕ) (way : List Frame)
    → IsBalanced t
    → (height t ≡ n) ⊎ (height t + 1 ≡ n)
    → IsBalancedWay n way
    → length way < fuel
    → Fixed fuel t way
fix_up-Fixed zero t n way bt c w lt = absurd (omega arith)
fix_up-Fixed (suc fuel) t n [] bt c w lt = (t, unfold fix_up recalc_heights in refl, bt, refl)
fix_up-Fixed (suc fuel) t n (f ∷ way) bt c (w0, w1, w2, w3, w4) lt =
    let k = height t in
    let s = height (sibling f) in
    let h = height_over k f in
    let step = recalc_heights_step k f way w4 in
    let over = height_over_lem k f in
    let stored = w1 ∙ height_over_lem n f in
    elim (Bool-cases (unbalanced_over k f)) [
      | inl unb ↦
          let (hs, new, old) = low_child k n s c w2 w3 (sym (unbalanced_over_lem k f) ∙ unb) in
          let same : h ≡ frame_height f = over ∙ new ∙ sym old ∙ sym stored in
          let (m, g, g', b, moved, turned, bb, low, order) = turn t f way bt w0 hs in
          let (r, ends, br, order') =
            fix_up-Fixed fuel b (frame_height f) way bb
              (lower_or_same k (height b) (frame_height f) low (stored ∙ old)) w4 (omega arith) in
          (
            r,
            ap (fix_up (suc fuel) t) (recalc_heights_same k f way same)
                ∙ fix_turn fuel t f way m b g g' unb moved turned
                ∙ ends,
            br,
            order' ∙ inorder-plug b (fill f t) way order,
          )
      | inr fine ↦
          let (c', u, v) = fine_parent k n s c w2 w3 (sym (unbalanced_over_lem k f) ∙ fine) in
          let f' = with_height h f in
          let sib = sibling-with_height h f in
          let (over', stored', back) = with_height_lem k h f in
          let whole =
            fill-IsBalanced f' t bt (rw sib w0) (stored' ∙ sym over') (rw sib u) (rw sib v) in
          let top : height (fill f' t) ≡ h = height-fill f' t ∙ stored' in
          let (r, ends, br, order) =
            fix_up-Fixed (suc fuel) (fill f' t) (frame_height f) way whole
              (moved_height _ _ _ _ (top ∙ over) stored c') w4 (omega arith) in
          (
            r,
            ap (fix_up (suc fuel) t) step
                ∙ fix_skip fuel t f' (recalc_heights h way)
                    (unbalanced_over-with_height k h f ∙ fine)
                ∙ ap (λ i. fix_up (suc fuel) (fill f' t) (recalc_heights i way)) (sym top)
                ∙ ends,
            br,
            order ∙ inorder-plug (fill f' t) (fill f t) way (inorder-fill h f t),
          )
    ]
