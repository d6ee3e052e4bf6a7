-- ===== src/ColmMap/Turn.antt =====
-- The moves down from an element out of balance, and the rotation there.
use colm.Prelude.{
  ℕ, ◌+◌, ◌≤◌, ◌≡◌, ◌⊎◌, inl, inr, refl, sym, ◌∙◌, true, false, some, List, ◌∷◌, ◌==◌, ltb, arith,
  Bool-cases,
}
use colm.ColmMap.{MapTree, leaf, node, Frame, left_of, right_of, height, fill, new_height, rotate}
use colm.ColmMap.Detach.{move_down, second_move}
use colm.ColmMap.Balance.{inorder, sibling, IsBalanced}
use colm.ColmMap.Rotate.{rotate-IsBalanced, same_side}
use mathlib.Core.Path.{subst}

-- what the two moves down from an element out of balance lead to, and what the rotation makes
abbrev pub Turned : MapTree → Frame → List Frame → Type 0
Turned t f way =
    (n : MapTree) × (g : Frame) × (g' : Frame) × (b : MapTree) × (move_down (fill f t) way
      ≡ some (n, g ∷ g' ∷ way))
    × (rotate n g g' ≡ some b)
    × IsBalanced b
    × ((height b ≡ height t + 2) ⊎ (height b ≡ height t + 3))
    × (inorder b ≡ inorder (fill f t))

abbrev pub IsLower : ℕ → ℕ → Type 0
IsLower k h = (h ≡ k + 2) ⊎ (h ≡ k + 3)

-- the heights of the children of the higher sibling
module _ (k x y h : ℕ) (e : h ≡ new_height x y) (e' : h ≡ k + 2) where
  pub right_higher : ltb x y ≡ true → y ≤ x + 1 → (y ≡ k + 1) × (x ≡ k)
  right_higher lt u = ground arith

  pub left_higher : ltb x y ≡ false → ltb y x ≡ true → x ≤ y + 1 → (x ≡ k + 1) × (y ≡ k)
  left_higher ge lt u = ground arith

  pub none_higher : ltb x y ≡ false → ltb y x ≡ false → (x ≡ k + 1) × (y ≡ k + 1)
  none_higher ge ge' = ground arith

  pub lower_test : ((k == h) ≡ false) × (ltb k h ≡ true) × ((h == k) ≡ false) × (ltb h k ≡ false)
  lower_test = (ground arith, ground arith, ground arith, ground arith)

pub Turned-by :
    (t : MapTree) (f : Frame) (way : List Frame) (n : MapTree) (g g' : Frame)
    → move_down (fill f t) way ≡ some (n, g ∷ g' ∷ way)
    → IsBalanced n
    → IsBalanced (sibling g)
    → IsBalanced (sibling g')
    → height n ≡ height (sibling g') + 1
    → (height (sibling g) ≡ height (sibling g'))
      ⊎ ((height (sibling g) ≡ height (sibling g') + 1) × (same_side g g' ≡ true))
    → IsLower (height t) (height (sibling g) + 2)
    → inorder (fill g' (fill g n)) ≡ inorder (fill f t)
    → Turned t f way
Turned-by t f way n g g' moved bn bg bg' hn hg low same =
    let (b, r, bb, hb, o) = rotate-IsBalanced n g g' bn bg bg' hn hg in
    (n, g, g', b, moved, r, bb, subst (IsLower (height t)) (sym hb) low, o ∙ same)

pub plus_two : (k x : ℕ) → (x ≡ k) ⊎ (x ≡ k + 1) → IsLower k (x + 2)
plus_two k x (inl e) = inl (omega arith)
plus_two k x (inr e) = inr (omega arith)

module _ (t x y : MapTree) (c e h hc : ℕ) (way : List Frame) (bt : IsBalanced t)
    (bs : IsBalanced (node x c hc y)) (hs : hc ≡ height t + 2) where
  pub turn_right : Turned t (left_of e h (node x c hc y)) way
  unfolding move_down second_move
  turn_right =
      let k = height t in
      let f = left_of e h (node x c hc y) in
      let (ne, lower, ne', ge) = lower_test k (height x) (height y) hc bs.2 hs in
      elim (Bool-cases (ltb (height x) (height y))) [
        | inl right ↦
            let (hy, hx) = right_higher k (height x) (height y) hc bs.2 hs right bs.4 in
            Turned-by t f way y (right_of x c hc) (right_of t e h) (rw (ne, lower, right)) bs.1 bs.0
              bt hy (inl hx) (plus_two k (height x) (inl hx)) refl
        | inr not_right ↦ elim (Bool-cases (ltb (height y) (height x))) [
          | inl left ↦
              let (hx, hy) = left_higher k (height x) (height y) hc bs.2 hs not_right left bs.3 in
              Turned-by t f way x (left_of c hc y) (right_of t e h)
                (rw (ne, lower, not_right, left)) bs.0 bs.1 bt hx (inl hy)
                (plus_two k (height y) (inl hy)) refl
          | inr not_left ↦
              let (hx, hy) = none_higher k (height x) (height y) hc bs.2 hs not_right not_left in
              Turned-by t f way y (right_of x c hc) (right_of t e h)
                (rw (ne, lower, not_right, not_left)) bs.1 bs.0 bt hy (inr (hx, refl))
                (plus_two k (height x) (inr hx)) refl
        ]
      ]

  pub turn_left : Turned t (right_of (node x c hc y) e h) way
  unfolding move_down second_move
  turn_left =
      let k = height t in
      let f = right_of (node x c hc y) e h in
      let (ne, lower, ne', ge) = lower_test k (height x) (height y) hc bs.2 hs in
      elim (Bool-cases (ltb (height x) (height y))) [
        | inl right ↦
            let (hy, hx) = right_higher k (height x) (height y) hc bs.2 hs right bs.4 in
            Turned-by t f way y (right_of x c hc) (left_of e h t) (rw (ne', ge, right)) bs.1 bs.0 bt
              hy (inl hx) (plus_two k (height x) (inl hx)) refl
        | inr not_right ↦ elim (Bool-cases (ltb (height y) (height x))) [
          | inl left ↦
              let (hx, hy) = left_higher k (height x) (height y) hc bs.2 hs not_right left bs.3 in
              Turned-by t f way x (left_of c hc y) (left_of e h t) (rw (ne', ge, not_right, left))
                bs.0 bs.1 bt hx (inl hy) (plus_two k (height y) (inl hy)) refl
          | inr not_left ↦
              let (hx, hy) = none_higher k (height x) (height y) hc bs.2 hs not_right not_left in
              Turned-by t f way x (left_of c hc y) (left_of e h t)
                (rw (ne', ge, not_right, not_left)) bs.0 bs.1 bt hx (inr (hy, refl))
                (plus_two k (height y) (inr hy)) refl
        ]
      ]

pub turn :
    (t : MapTree) (f : Frame) (way : List Frame)
    → IsBalanced t
    → IsBalanced (sibling f)
    → height (sibling f) ≡ height t + 2
    → Turned t f way
turn t (left_of e h leaf) way bt bs hs = absurd (omega arith)
turn t (right_of leaf e h) way bt bs hs = absurd (omega arith)
turn t (left_of e h (node x c hc y)) way bt bs hs = turn_right t x y c e h hc way bt bs hs
turn t (right_of (node x c hc y) e h) way bt bs hs = turn_left t x y c e h hc way bt bs hs
