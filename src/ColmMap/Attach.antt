-- ===== src/ColmMap/Attach.antt =====
-- What insertion does to a map.
use Prim.Native.Nat.{Ordering}
use Prim.Native.Nat.Ordering.{lt, eq, gt}
use colm.Prelude.{
  ℕ, ◌+◌, ◌%◌, ◌^◌, ◌≡◌, ◌≢◌, ◌⊎◌, inl, inr, refl, sym, ◌∙◌, ap, Bool, true, false, ◌||◌, some,
  List, [], ◌∷◌, ◌++◌, length, length-append, ◌==◌, arith, Bool-cases,
}
use colm.Links.{Links, list_add_after}
use colm.Links.Chain.{has, Chain-append, Holds}
use colm.Links.Before.{list_add_before-Holds}
use colm.Links.After.{list_add_after-Holds}
use colm.ColmList.Ends.{add_after_tail}
use colm.ColmMap.{MapTree, leaf, node, Frame, left_of, right_of, ColmMap, plug}
use colm.ColmMap.Insert.{attach_tree, attach_way, attach_links, map_attach_rebal}
use colm.ColmMap.Balance.{inorder, IsBalanced, IsBalancedWay}
use colm.ColmMap.Grow.{settle-Settled, eq_of_test}
use colm.ColmMap.Settle.{TopFits}
use colm.ColmMap.Order.{before, after, inorder-plug_lem, Below, Above, IsSorted, IsSorted-insert}
use mathlib.Core.Path.{subst}
use mathlib.Core.List.{append_assoc}

-- the last step to the left of a search: the parent if the search went left from it, and never
-- the parent if it went right
abbrev pub LastLess : List Frame → ℕ → Type 0
LastLess [] last_less = Unit
LastLess (left_of e h r ∷ way) last_less = last_less ≡ e
LastLess (right_of l e h ∷ way) last_less = (last_less == e) ≡ false

same_test : (a : ℕ) → (a == a) ≡ true
same_test a = ground arith

attach_way-same :
    (way : List Frame) (last_less : ℕ) → LastLess way last_less → attach_way way last_less ≡ way
unfolding attach_way
attach_way-same [] last_less s = refl
attach_way-same (left_of e h r ∷ way) last_less s = rw (s, same_test e)
attach_way-same (right_of l e h ∷ way) last_less s = rw s

any_fits : (way : List Frame) → TopFits 0 way
any_fits [] = tt
any_fits (f ∷ way) = omega arith

-- the tree with a new leaf: it is balanced, and holds the element between what stood around it
attach_tree_lem :
    (element : ℕ) (way : List Frame)
    → IsBalancedWay 0 way
    → (r : MapTree) × (attach_tree element way ≡ some r)
      × IsBalanced r
      × (inorder r ≡ before way ++ element ∷ after way)
unfolding attach_tree
attach_tree_lem element way w =
    let new = node leaf element 1 leaf in
    let (r, ends, b, order) =
      settle-Settled new 0 way (tt, tt, refl, omega arith, omega arith) refl w (any_fits way) in
    (
      r,
      ends,
      b,
      order ∙ inorder-plug_lem new way ∙ append_assoc (before way) (element ∷ []) (after way),
    )

-- the list with the new element, in the same place
attach_links-Holds :
    (element : ℕ) (way : List Frame) (last_less : ℕ) (links : Links)
    → element ≢ 0
    → LastLess way last_less
    → has element (before way ++ after way) ≡ false
    → Holds links (before way ++ after way)
    → Holds (attach_links element way last_less links) (before way ++ element ∷ after way)
unfolding attach_links
attach_links-Holds element [] last_less links pos s o h = add_after_tail links element pos [] o h
attach_links-Holds element (left_of e i r ∷ way) last_less links pos s o h =
    rw (s, same_test e)
      (list_add_before-Holds links element e pos (before way) (inorder r ++ after way) o h)
attach_links-Holds element (right_of l e i ∷ way) last_less links pos s o h =
    let xs = before way ++ inorder l in
    let split = λ (ys : List ℕ). append_assoc xs (e ∷ []) ys in
    let h' = subst (Holds links) (split (after way)) h in
    let o' = subst (λ ys. has element ys ≡ false) (split (after way)) o in
    rw s (
      subst (Holds (list_add_after e element links)) (sym (split (element ∷ after way)))
        (list_add_after-Holds links element e pos xs (after way) o' h'))

pub or-true : (b : Bool) → (b || true) ≡ true
or-true true = refl
or-true false = refl

pub Ordering-cases : (r : Ordering) → (r ≡ lt) ⊎ ((r ≡ eq) ⊎ (r ≡ gt))
Ordering-cases lt = inl refl
Ordering-cases eq = inr (inl refl)
Ordering-cases gt = inr (inr refl)

module _ {K : Type 0} (cmp : K → K → Ordering) (key : ℕ → K) where
  -- a map is well formed: its tree is balanced, with the right heights, and its elements stand in
  -- the order of their keys, no two with one key; the list holds them in this order, and they are
  -- counted
  pub record IsMap (map : ColmMap) : Type 0 where
    pub balanced : IsBalanced map.root
    pub sorted : IsSorted cmp key (inorder map.root)
    pub holds : Holds map.links (inorder map.root)
    pub size_eq : map.tree_size ≡ length (inorder map.root) % 2 ^ 64

  pub attach-IsMap :
      (map : ColmMap) (element : ℕ) (way : List Frame) (last_less : ℕ)
      → element ≢ 0
      → IsMap map
      → inorder map.root ≡ before way ++ after way
      → has element (before way ++ after way) ≡ false
      → IsBalancedWay 0 way
      → LastLess way last_less
      → Below cmp key (key element) (before way)
      → Above cmp key (key element) (after way)
      → (map' : ColmMap) × (map_attach_rebal map element way last_less ≡ some map')
        × IsMap map'
        × (inorder map'.root ≡ before way ++ element ∷ after way)
  unfolding map_attach_rebal
  attach-IsMap map element way last_less pos m e o w s b a =
      let (r, ends, br, order) = attach_tree_lem element way w in
      let same = attach_way-same way last_less s in
      let sorted =
        IsSorted-insert cmp key (before way) element (after way)
          (subst (IsSorted cmp key) e m.sorted) b a in
      let holds =
        attach_links-Holds element way last_less map.links pos s o
          (subst (Holds map.links) e m.holds) in
      (
        record {
          root = r;
          tree_size = (map.tree_size + 1) % 2 ^ 64;
          links = attach_links element way last_less map.links;
        },
        rw (same, ends, map_attach_rebal),
        record {
          balanced = br;
          sorted = subst (IsSorted cmp key) (sym order) sorted;
          holds = subst (Holds (attach_links element way last_less map.links)) (sym order) holds;
          size_eq = omega (
            arith,
            m.size_eq,
            ap length e,
            ap length order,
            length-append (before way) (after way),
            length-append (before way) (element ∷ after way),
          );
        },
        order,
      )

  -- the element at a place of a well-formed map
  pub place_order :
      (map : ColmMap) (l : MapTree) (cur h : ℕ) (r : MapTree) (way : List Frame)
      → plug (node l cur h r) way ≡ map.root
      → inorder map.root ≡ (before way ++ inorder l) ++ cur ∷ (inorder r ++ after way)
  place_order map l cur h r way e =
      ap inorder (sym e) ∙ inorder-plug_lem (node l cur h r) way ∙ (simp append_assoc)

  pub place-ne-zero :
      (map : ColmMap) (cur : ℕ) (xs ys : List ℕ)
      → IsMap map
      → inorder map.root ≡ xs ++ cur ∷ ys
      → cur ≢ 0
  place-ne-zero map cur xs ys m e =
      let h = subst (Holds map.links) e m.holds in
      (Chain-append map.links.next map.links.prev 0 xs (cur ∷ ys) 0 h.chain).1.0

  pub not_last :
      (k : K) (last_less cur : ℕ)
      → (last_less ≡ 0) ⊎ (cmp k (key last_less) ≡ lt)
      → cmp k (key cur) ≡ gt
      → cur ≢ 0
      → (last_less == cur) ≡ false
  not_last k last_less cur less above pos = elim (Bool-cases (last_less == cur)) [
    | inl same ↦ absurd (elim less [
      | inl null ↦ pos (sym (eq_of_test last_less cur same) ∙ null)
      | inr below ↦
          lt_ne_gt (sym below ∙ ap (λ x. cmp k (key x)) (eq_of_test last_less cur same) ∙ above)
    ])
    | inr apart ↦ apart
  ]
    where
      lt_ne_gt : lt ≡ gt → ⊥
      lt_ne_gt h = cc
