-- ===== src/ColmMap/Depth.antt =====
-- How many comparisons a search in a map takes.
use colm.Prelude.{
  ℕ, zero, suc, ◌+◌, ◌-◌, ◌*◌, ◌^◌, ◌≤◌, ◌<◌, ◌≡◌, refl, Option, none, some, inl, inr, List, [],
  ◌∷◌, length, length-append, ltb, Bool-cases, ltb→lt, ltb→le, arith,
}
use Prim.Native.Nat.Ordering.{lt, eq, gt}
use colm.ColmMap.Insert.{find_at, map_impl_find}
use Prim.Native.Nat.{Ordering}
use native.Mathlib.Nat.{two-pow-succ}
use colm.ColmMap.Attach.{IsMap}
use colm.ColmMap.{ColmMap, MapTree, leaf, node, Frame, left_of, right_of, height, new_height}
use colm.ColmMap.Balance.{inorder, IsBalanced}

children_heights :
    (h l r j : ℕ)
    → h ≡ new_height l r
    → l ≤ r + 1
    → r ≤ l + 1
    → 2 * suc j ≤ h
    → (2 * j ≤ l) × (2 * j ≤ r)
children_heights h l r j e u v k = (ground arith, ground arith)

size_bound :
    (k : ℕ) (t : MapTree) → IsBalanced t → 2 * k ≤ height t → 2 ^ k ≤ length (inorder t) + 1
size_bound zero t b h = omega arith
size_bound (suc j) leaf b h = absurd (omega arith)
size_bound (suc j) (node l e i r) (bl, br, e', u, v) h =
    let (hl, hr) = children_heights i (height l) (height r) j e' u v h in
    omega (
      arith,
      two-pow-succ j,
      size_bound j l bl hl,
      size_bound j r br hr,
      length-append (inorder l) (e ∷ inorder r),
    )

node_pos : (n m i : ℕ) → i ≡ new_height n m → (n + 1 ≤ i) × (m + 1 ≤ i)
node_pos n m i e = (ground arith, ground arith)

module _ {K : Type 0} (cmp : K → K → Ordering) (key : ℕ → K) where
  -- the loop of `map_impl_find`, given up where it takes more than so many rounds; a round is one
  -- comparison
  unfoldable pub find_within : ℕ → K → MapTree → List Frame → Option (Option (MapTree × List Frame))
  find_within rounds k leaf way = some none
  find_within zero k (node l cur h r) way = none
  find_within (suc rounds) k (node l cur h r) way = elim (cmp k (key cur)) [
    | lt ↦ find_within rounds k l (left_of cur h r ∷ way)
    | gt ↦ find_within rounds k r (right_of l cur h ∷ way)
    | eq ↦ some (some (node l cur h r, way))
  ]

  find_within-find_at :
      (rounds : ℕ) (k : K) (t : MapTree) (way : List Frame)
      → IsBalanced t
      → height t ≤ rounds
      → find_within rounds k t way ≡ some (find_at cmp key k t way)
  unfolding find_within find_at
  find_within-find_at rounds k leaf way b le = refl
  find_within-find_at zero k (node l cur h r) way (bl, br, e, u, v) le =
      absurd (omega (arith, (node_pos (height l) (height r) h e).0))
  find_within-find_at (suc rounds) k (node l cur h r) way (bl, br, e, u, v) le =
      let (hl, hr) = node_pos (height l) (height r) h e in
      by_answer (cmp k (key cur)) (some (node l cur h r, way))
        (find_within-find_at rounds k l (left_of cur h r ∷ way) bl (omega arith))
        (find_within-find_at rounds k r (right_of l cur h ∷ way) br (omega arith))
    where
      by_answer :
          (q : Ordering) {a b : Option (Option (MapTree × List Frame))}
          {x y : Option (MapTree × List Frame)} (z : Option (MapTree × List Frame))
          → a ≡ some x
          → b ≡ some y
          → ◌≡◌ {A = Option (Option (MapTree × List Frame))}
              (elim q [ lt ↦ a | gt ↦ b | eq ↦ some z ])
              (some (elim q [ lt ↦ x | gt ↦ y | eq ↦ z ]))
      by_answer lt z ea eb = ea
      by_answer gt z ea eb = eb
      by_answer eq z ea eb = refl

  -- In a well-formed map of fewer than `2 ^ n - 1` elements `map_impl_find` takes at most
  -- `2 * n - 1` comparisons, whatever the key is and whether it is found or not: its loop, given up
  -- after so many rounds, still gives the same answer.
  pub find_within-map_impl_find :
      (map : ColmMap) (k : K) (n : ℕ)
      → length (inorder map.root) + 1 < 2 ^ n
      → IsMap cmp key map
      → find_within (2 * n - 1) k map.root [] ≡ some (map_impl_find cmp key map k)
  unfolding map_impl_find
  find_within-map_impl_find map k n few m =
      find_within-find_at (2 * n - 1) k map.root [] m.balanced le
    where
      le : height map.root ≤ 2 * n - 1
      le = elim (Bool-cases (ltb (height map.root) (2 * n))) [
        | inl e ↦ let lt = ltb→lt (height map.root) (2 * n) e in omega arith
        | inr e ↦
            let ge = ltb→le (height map.root) (2 * n) e in
            absurd (omega (arith, size_bound n map.root m.balanced ge))
      ]
