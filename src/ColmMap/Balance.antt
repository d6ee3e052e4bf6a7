-- ===== src/ColmMap/Balance.antt =====
-- Balanced trees, and balanced ways up from a place in a tree.
use colm.Prelude.{
  ℕ, ◌+◌, ◌≤◌, ◌≡◌, refl, sym, ◌∙◌, ap, true, false, none, List, [], ◌∷◌, ◌++◌, ◌==◌, arith,
  Bool-cases, inl, inr,
}
use mathlib.Core.Path.{ap₂}
use colm.ColmMap.{
  MapTree, leaf, node, Frame, left_of, right_of, height, frame_height, unbalanced, with_height,
  fill, plug, new_height, height_over, unbalanced_over, recalc_heights,
}
use colm.ColmMap.Insert.{find_first_unbal_gp}
use colm.ColmMap.Detach.{find_first_unbal_el}

abbrev pub inorder : MapTree → List ℕ
inorder leaf = []
inorder (node l e h r) = inorder l ++ e ∷ inorder r

abbrev pub sibling : Frame → MapTree
sibling (left_of e h r) = r
sibling (right_of l e h) = l

-- the heights are right, and those of siblings differ by 1 at most
abbrev pub IsBalanced : MapTree → Type 0
IsBalanced leaf = Unit
IsBalanced (node l e h r) =
    IsBalanced l
    × IsBalanced r
    × (h ≡ new_height (height l) (height r))
    × (height l ≤ height r + 1)
    × (height r ≤ height l + 1)

-- the same for the frames, with a child of height `n` at the beginning of the way
abbrev pub IsBalancedWay : ℕ → List Frame → Type 0
IsBalancedWay n [] = Unit
IsBalancedWay n (f ∷ way) =
    IsBalanced (sibling f)
    × (frame_height f ≡ height_over n f)
    × (n ≤ height (sibling f) + 1)
    × (height (sibling f) ≤ n + 1)
    × IsBalancedWay (frame_height f) way

pub height_over_lem : (n : ℕ) (f : Frame) → height_over n f ≡ new_height n (height (sibling f))
height_over_lem n (left_of e h r) = refl
height_over_lem n (right_of l e h) = ground arith

pub fill-IsBalanced :
    (f : Frame) (t : MapTree)
    → IsBalanced t
    → IsBalanced (sibling f)
    → frame_height f ≡ height_over (height t) f
    → height t ≤ height (sibling f) + 1
    → height (sibling f) ≤ height t + 1
    → IsBalanced (fill f t)
fill-IsBalanced (left_of e h r) t b s e' u v = (b, s, e', u, v)
fill-IsBalanced (right_of l e h) t b s e' u v = (s, b, e', v, u)

pub height-fill : (f : Frame) (t : MapTree) → height (fill f t) ≡ frame_height f
height-fill (left_of e h r) t = refl
height-fill (right_of l e h) t = refl

pub plug-IsBalanced :
    (t : MapTree) (way : List Frame)
    → IsBalanced t
    → IsBalancedWay (height t) way
    → IsBalanced (plug t way)
plug-IsBalanced t [] b w = b
plug-IsBalanced t (f ∷ way) b (w0, w1, w2, w3, w4) =
    plug-IsBalanced (fill f t) way (fill-IsBalanced f t b w0 w1 w2 w3) (rw (height-fill f t) w4)

-- heights that are right are not changed, and right heights come back
pub recalc_heights_same :
    (n : ℕ) (f : Frame) (way : List Frame)
    → height_over n f ≡ frame_height f
    → recalc_heights n (f ∷ way) ≡ f ∷ way
unfolding recalc_heights
recalc_heights_same n f way e = ground (arith)

pub recalc_heights_changed :
    (n : ℕ) (f : Frame) (way : List Frame)
    → (height_over n f == frame_height f) ≡ false
    → recalc_heights n (f ∷ way)
      ≡ with_height (height_over n f) f ∷ recalc_heights (height_over n f) way
unfolding recalc_heights
recalc_heights_changed n f way e = rw (e, recalc_heights)

-- a frame with another height
pub with_height_lem :
    (n k : ℕ) (f : Frame)
    → (height_over n (with_height k f) ≡ height_over n f)
      × (frame_height (with_height k f) ≡ k)
      × (with_height (frame_height f) (with_height k f) ≡ f)
with_height_lem n k (left_of e h r) = (refl, refl, refl)
with_height_lem n k (right_of l e h) = (refl, refl, refl)

pub recalc_heights-recalc_heights :
    (n k : ℕ) (way : List Frame)
    → IsBalancedWay n way
    → recalc_heights n (recalc_heights k way) ≡ way
recalc_heights-recalc_heights n k [] w = refl_nil n k
  where
    refl_nil : (a b : ℕ) → recalc_heights a (recalc_heights b []) ≡ []
    refl_nil a b = unfold recalc_heights in refl
recalc_heights-recalc_heights n k (f ∷ way) w =
    elim (Bool-cases (height_over k f == frame_height f)) [
      | inl same ↦
          ap (recalc_heights n) (recalc_heights_same k f way (eq_of_test _ _ same))
          ∙ recalc_heights_same n f way (sym w.1)
      | inr other ↦
          let h = height_over k f in
          let f' = with_height h f in
          let rest = recalc_heights h way in
          let (over, stored, back) = with_height_lem n h f in
          let e : height_over n f' ≡ frame_height f = over ∙ sym w.1 in
          ap (recalc_heights n) (recalc_heights_changed k f way other)
          ∙ recalc_heights_changed n f' rest (rw (e, stored) (flipped _ _ other))
          ∙ ap (λ a. with_height a f' ∷ recalc_heights a rest) e
          ∙ ap₂ (λ a t. a ∷ t) back (recalc_heights-recalc_heights (frame_height f) h way w.4)
    ]
  where
    eq_of_test : (a b : ℕ) → (a == b) ≡ true → a ≡ b
    eq_of_test a b h = ground arith

    flipped : (a b : ℕ) → (a == b) ≡ false → (b == a) ≡ false
    flipped a b h = ground arith

pub not_unbalanced : (a b : ℕ) → a ≤ b + 1 → b ≤ a + 1 → unbalanced a b ≡ false
not_unbalanced a b u v = ground arith

pub not_unbalanced_over :
    (n : ℕ) (f : Frame)
    → n ≤ height (sibling f) + 1
    → height (sibling f) ≤ n + 1
    → unbalanced_over n f ≡ false
not_unbalanced_over n (left_of e h r) u v = not_unbalanced n (height r) u v
not_unbalanced_over n (right_of l e h) u v = not_unbalanced (height l) n v u

-- nothing is out of balance above a place of a balanced tree
pub find_first_unbal_gp-none :
    (t : MapTree) (n : ℕ) (way : List Frame)
    → IsBalancedWay n way
    → find_first_unbal_gp t way ≡ none
unfolding find_first_unbal_gp
find_first_unbal_gp-none t n [] w = refl
find_first_unbal_gp-none t n (f ∷ []) w = refl
find_first_unbal_gp-none t n (f ∷ g ∷ way) (w0, w1, w2, w3, (v0, v1, v2, v3, v4)) =
    rw (not_unbalanced_over (frame_height f) g v2 v3)
      (find_first_unbal_gp-none (fill f t) (frame_height f) (g ∷ way) (v0, v1, v2, v3, v4))

pub find_first_unbal_el-none :
    (t : MapTree) (way : List Frame)
    → IsBalanced t
    → IsBalancedWay (height t) way
    → find_first_unbal_el t way ≡ none
unfolding find_first_unbal_el
find_first_unbal_el-none leaf way b w = refl
find_first_unbal_el-none (node l e h r) [] (b0, b1, b2, b3, b4) w =
    rw (not_unbalanced (height l) (height r) b3 b4)
find_first_unbal_el-none (node l e h r) (g ∷ way) (b0, b1, b2, b3, b4) (w0, w1, w2, w3, w4) =
    let t = node l e h r in
    let whole = fill-IsBalanced g t (b0, b1, b2, b3, b4) w0 w1 w2 w3 in
    let above = find_first_unbal_el-none (fill g t) way whole (rw (height-fill g t) w4) in
    rw (not_unbalanced (height l) (height r) b3 b4) above
