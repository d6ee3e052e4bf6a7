-- ===== src/ColmList/Deque.antt =====
-- The lists of src/list.c as sequences of values.
use colm.Prelude.{
  ℕ, ◌+◌, ◌-◌, ◌<◌, ◌%◌, ◌^◌, ◌≡◌, ◌≢◌, inl, inr, refl, sym, ◌∙◌, ap, true, false, ◌&&◌, not,
  Option, some, List, [], ◌∷◌, ◌++◌, map, length, length-append, ◌==◌, ltb, if◌then◌else◌, arith,
  Bool-cases,
}
use colm.Links.{Links, update, list_detach}
use colm.Links.Chain.{has, Holds, last-append, Chain-append}
use colm.ColmList.{
  ColmList, ValueInfo, vlist_append, vlist_prepend, vlist_detach_tail, vlist_detach_head,
  colm_list_detach, take_value, tree_upref,
}
use colm.ColmList.Ends.{add_before_head, add_after_tail, detach_head, detach_tail}
use mathlib.Core.Path.{subst}
use mathlib.Core.List.{map-append}

-- the list holds the elements `xs`, and `list_len` counts them
pub record IsList (l : ColmList) (xs : List ℕ) : Type 0 where
  pub holds : Holds l.links xs
  pub len_eq : l.list_len ≡ length xs % 2 ^ 64

abbrev pub values : ColmList → List ℕ → List ℕ
values l xs = map l.value xs

map-update :
    (f : ℕ → ℕ) (el v : ℕ) (xs : List ℕ) → has el xs ≡ false → map (update f el v) xs ≡ map f xs
map-update f el v [] o = refl
map-update f el v (x ∷ xs) o = ground (arith, map-update f el v xs)

module _ (l : ColmList) (el v : ℕ) (el_pos : el ≢ 0) (xs : List ℕ) where
  -- For a list in which the new element does not stand: `colm_vlist_append` puts the value behind
  -- the values of the list and `colm_vlist_prepend` in front of them; the pointers of the list are
  -- again those of a list, and its length counts it.
  pub vlist_add-values :
      has el xs ≡ false
      → IsList l xs
      → IsList (vlist_append el v l) (xs ++ el ∷ [])
        × (values (vlist_append el v l) (xs ++ el ∷ []) ≡ values l xs ++ v ∷ [])
        × IsList (vlist_prepend el v l) (el ∷ xs)
        × (values (vlist_prepend el v l) (el ∷ xs) ≡ v ∷ values l xs)
  unfolding vlist_append vlist_prepend
  vlist_add-values o h =
      let front : map (update l.value el v) (el ∷ []) ≡ v ∷ [] = ground arith in
      let kept = map-update l.value el v xs o in
      (
        record {
          holds = add_after_tail l.links el el_pos xs o h.holds;
          len_eq = omega (arith, h.len_eq, length-append xs (el ∷ []));
        },
        map-append (update l.value el v) xs (el ∷ [])
            ∙ ap (λ t. t ++ map (update l.value el v) (el ∷ [])) kept
            ∙ ap (λ t. map l.value xs ++ t) front,
        record {
          holds = add_before_head l.links el el_pos xs o h.holds;
          len_eq = omega (arith, h.len_eq);
        },
        ap (λ t. t ++ map (update l.value el v) xs) front ∙ ap (λ t. v ∷ t) kept,
      )

ltb_of_lt : (a b : ℕ) → a < b → ltb a b ≡ true
ltb_of_lt a b h = ground arith

module _ (info : ValueInfo) (l : ColmList) where
  -- the reference counts when a value has been handed out
  abbrev counted : ℕ → ℕ → ℕ
  counted v t = if info.type_tree && (not (v == 0) && t == v) then l.refs t + 1 else l.refs t

  -- the value of `x` is answered, and the elements `xs` are left with their values
  abbrev pub Taken : ℕ → List ℕ → Option (ℕ × ColmList) → Type 0
  Taken x xs r =
      (after : ColmList) × (r ≡ some (l.value x, after))
      × IsList after xs
      × (values after xs ≡ values l xs)
      × ((t : ℕ) → after.refs t ≡ counted (l.value x) t)

  -- a value that is a tree has the `id` of a tree
  abbrev pub IsTreeValue : ℕ → Type 0
  IsTreeValue v = info.type_tree ≡ true → v ≢ 0 → info.id v < info.first_struct_el_id

  take_value_lem :
      (x : ℕ) (links : Links) (len : ℕ)
      → IsTreeValue (l.value x)
      → (refs : ℕ → ℕ) × (take_value info x (record l { links = links; list_len = len })
          ≡ some (l.value x, record l { links = links; list_len = len; refs = refs }))
        × ((t : ℕ) → refs t ≡ counted (l.value x) t)
  unfolding take_value tree_upref
  take_value_lem x links len ok = elim (Bool-cases info.type_tree) [
    | inl tree ↦ elim (Bool-cases (l.value x == 0)) [
      | inl null ↦ (l.refs, rw (tree, null), λ t. ground arith)
      | inr there ↦ (
        update l.refs (l.value x) (l.refs (l.value x) + 1),
        rw (
          tree,
          there,
          ltb_of_lt (info.id (l.value x)) info.first_struct_el_id (ok tree (ground arith)),
        ),
        λ t. ground arith,
      )
    ]
    | inr plain ↦ (l.refs, rw plain, λ t. ground arith)
  ]

  taken :
      (x : ℕ) (xs : List ℕ) (links : Links)
      → IsTreeValue (l.value x)
      → Holds links xs
      → l.list_len ≡ (length xs + 1) % 2 ^ 64
      → Taken x xs (
          take_value info x
            (record l { links = links; list_len = (l.list_len + 2 ^ 64 - 1) % 2 ^ 64 }))
  taken x xs links ok h e =
      let (refs, eq, counts) = take_value_lem x links ((l.list_len + 2 ^ 64 - 1) % 2 ^ 64) ok in
      (
        record l { links = links; list_len = (l.list_len + 2 ^ 64 - 1) % 2 ^ 64; refs = refs },
        eq,
        record { holds = h; len_eq = omega arith },
        refl,
        counts,
      )

  without : ℕ → ColmList
  without a = record l {
    links = list_detach a l.links;
    list_len = (l.list_len + 2 ^ 64 - 1) % 2 ^ 64;
  }

  detach_some : (a : ℕ) → a ≢ 0 → colm_list_detach a l ≡ some (without a)
  unfolding colm_list_detach without
  detach_some a pos = ground arith

  head_eq :
      {z : ℕ}
      → l.links.head ≡ z
      → z ≢ 0
      → vlist_detach_head info l ≡ take_value info z (without l.links.head)
  unfolding vlist_detach_head
  head_eq e pos =
      rw (detach_some l.links.head (λ z. pos (sym e ∙ z)), vlist_detach_head)
        (ap (λ a. take_value info a (without l.links.head)) e)

  tail_eq :
      {z : ℕ}
      → l.links.tail ≡ z
      → z ≢ 0
      → vlist_detach_tail info l ≡ take_value info z (without l.links.tail)
  unfolding vlist_detach_tail
  tail_eq e pos =
      rw (detach_some l.links.tail (λ z. pos (sym e ∙ z)), vlist_detach_tail)
        (ap (λ a. take_value info a (without l.links.tail)) e)

  -- For a list that is not empty, with a first value and a last one that have the `id` of a tree
  -- where values are trees: `colm_vlist_detach_head` answers the first value and leaves the other
  -- ones, `colm_vlist_detach_tail` answers the last value and leaves the other ones, each as a
  -- list again; the answered value is counted once more if it is a tree, and no other one.
  pub vlist_detach-Taken :
      (x y : ℕ) (xs ys : List ℕ)
      → x ∷ xs ≡ ys ++ y ∷ []
      → IsTreeValue (l.value x)
      → IsTreeValue (l.value y)
      → IsList l (x ∷ xs)
      → Taken x xs (vlist_detach_head info l) × Taken y ys (vlist_detach_tail info l)
  unfolding without
  vlist_detach-Taken x y xs ys e ok ok' h =
      let h' : Holds l.links (ys ++ y ∷ []) = subst (Holds l.links) e h.holds in
      let y_eq : l.links.tail ≡ y = h'.tail_eq ∙ last-append 0 ys (y ∷ []) in
      let (c, d) = Chain-append l.links.next l.links.prev 0 ys (y ∷ []) 0 h'.chain in
      let count : length ys ≡ length xs = omega (arith, ap length e, length-append ys (y ∷ [])) in
      let head =
        taken x xs (list_detach l.links.head l.links) ok (detach_head l.links x xs h.holds)
          (omega (arith, h.len_eq)) in
      let tail =
        taken y ys (list_detach l.links.tail l.links) ok' (detach_tail l.links ys y h')
          (omega (arith, h.len_eq)) in
      (
        subst (Taken x xs) (sym (head_eq h.holds.head_eq h.holds.chain.0)) head,
        subst (Taken y ys) (sym (tail_eq y_eq d.0)) tail,
      )
