-- ===== src/ColmMap/Settle.antt =====
-- How `settle` and the recalculation of the heights step.
use colm.Prelude.{
  ℕ, ◌+◌, ◌≤◌, ◌≡◌, inl, inr, refl, sym, ◌∙◌, ap, true, false, none, some, List, [], ◌∷◌, ◌++◌,
  ◌==◌, arith, Bool-cases,
}
use colm.ColmMap.{
  MapTree, leaf, node, Frame, left_of, right_of, height, frame_height, with_height, fill, plug,
  new_height, unbalanced, height_over, unbalanced_over, recalc_heights, rotate, map_rebalance,
}
use colm.ColmMap.Insert.{find_first_unbal_gp, settle}
use colm.ColmMap.Balance.{inorder, sibling, IsBalanced, recalc_heights_same, recalc_heights_changed}

pub low_sibling : (i s : ℕ) → unbalanced (i + 2) s ≡ true → i + 1 ≤ s + 1 → s ≤ i + 1 + 1 → s ≡ i
low_sibling i s h u v = ground arith

pub heights_3 : (i s : ℕ) → s ≡ i → new_height (i + 2) s ≡ i + 3
heights_3 i s h = ground arith

pub heights_2 : (i s : ℕ) → s ≡ i → new_height (i + 1) s ≡ i + 2
heights_2 i s h = ground arith

pub differ : (i : ℕ) → (i + 3 == i + 2) ≡ false
differ i = ground arith

pub inorder-plug :
    (t u : MapTree) (way : List Frame)
    → inorder t ≡ inorder u
    → inorder (plug t way) ≡ inorder (plug u way)
inorder-plug t u [] e = e
inorder-plug t u (left_of x h r ∷ way) e =
    inorder-plug (node t x h r) (node u x h r) way (ap (λ xs. xs ++ x ∷ inorder r) e)
inorder-plug t u (right_of l x h ∷ way) e =
    inorder-plug (node l x h t) (node l x h u) way (ap (λ xs. inorder l ++ x ∷ xs) e)

-- a rotation does not read the heights that the frames have
pub rotate-with_height :
    (t : MapTree) (f g : Frame) (k : ℕ) → rotate t f (with_height k g) ≡ rotate t f g
unfolding rotate
rotate-with_height leaf f g k = refl
rotate-with_height (node l e h r) (left_of x i s) (left_of y j u) k = refl
rotate-with_height (node l e h r) (left_of x i s) (right_of u y j) k = refl
rotate-with_height (node l e h r) (right_of s x i) (left_of y j u) k = refl
rotate-with_height (node l e h r) (right_of s x i) (right_of u y j) k = refl

pub unbalanced_over-with_height :
    (n k : ℕ) (f : Frame) → unbalanced_over n (with_height k f) ≡ unbalanced_over n f
unbalanced_over-with_height n k (left_of e h r) = refl
unbalanced_over-with_height n k (right_of l e h) = refl

pub unbalanced_over_lem :
    (n : ℕ) (f : Frame) → unbalanced_over n f ≡ unbalanced n (height (sibling f))
unbalanced_over_lem n (left_of e h r) = refl
unbalanced_over_lem n (right_of l e h) = ground arith

pub with_height_same : (n : ℕ) (f : Frame) → n ≡ frame_height f → f ≡ with_height n f
with_height_same n (left_of e h r) e' = ap (λ i. left_of e i r) (sym e')
with_height_same n (right_of l e h) e' = ap (λ i. right_of l e i) (sym e')

-- the first frame that the recalculation leaves, changed or not
pub recalc_heights_cons :
    (n : ℕ) (f : Frame) (way : List Frame)
    → (rest : List Frame) × (recalc_heights n (f ∷ way) ≡ with_height (height_over n f) f ∷ rest)
recalc_heights_cons n f way = elim (Bool-cases (height_over n f == frame_height f)) [
  | inl same ↦ (
    way,
    recalc_heights_same n f way (eq_of_test _ _ same)
        ∙ ap (λ g. g ∷ way) (with_height_same _ f (eq_of_test _ _ same)),
  )
  | inr other ↦ (recalc_heights (height_over n f) way, recalc_heights_changed n f way other)
]
  where
    eq_of_test : (a b : ℕ) → (a == b) ≡ true → a ≡ b
    eq_of_test a b h = ground arith

-- how `settle` steps
pub settle-none :
    (t : MapTree) (way : List Frame)
    → find_first_unbal_gp t way ≡ none
    → settle t way ≡ some (plug t way)
unfolding settle
settle-none t way e = rw (e, settle)

pub settle_step :
    (t : MapTree) (f g : Frame) (way : List Frame)
    → unbalanced_over (frame_height f) g ≡ false
    → settle t (f ∷ g ∷ way) ≡ settle (fill f t) (g ∷ way)
unfolding settle find_first_unbal_gp
settle_step t f g way e = rw (e, settle)

pub rebalance_lem :
    (t b : MapTree) (f g : Frame) (way : List Frame)
    → rotate t f g ≡ some b
    → map_rebalance t (f ∷ g ∷ way) ≡ some (b, recalc_heights (height b) way)
unfolding map_rebalance
rebalance_lem t b f g way e = rw (e, map_rebalance)

pub settle-rotate :
    (t b : MapTree) (f g : Frame) (way : List Frame)
    → unbalanced_over (frame_height f) g ≡ true
    → rotate t f g ≡ some b
    → settle t (f ∷ g ∷ way) ≡ some (plug b (recalc_heights (height b) way))
unfolding settle find_first_unbal_gp
settle-rotate t b f g way e e' = rw (e, settle) (rw (rebalance_lem t b f g way e'))

-- what `settle` makes of a subtree `t` that has grown, when the heights above are right again
abbrev pub Settled : MapTree → List Frame → Type 0
Settled t way =
    (r : MapTree) × (settle t (recalc_heights (height t) way) ≡ some r)
    × IsBalanced r
    × (inorder r ≡ inorder (plug t way))

-- the other child of the parent is not lower than the child was that has grown
abbrev pub TopFits : ℕ → List Frame → Type 0
TopFits n [] = Unit
TopFits n (f ∷ way) = n ≤ height (sibling f)
