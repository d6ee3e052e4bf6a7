-- ===== src/TreeCompare/Same.antt =====
-- Which trees and keys are the same to the comparison.
use Prim.Native.Nat.{Ordering}
use Prim.Native.Nat.Ordering.{lt, eq, gt}
use colm.Prelude.{
  ℕ, ◌≡◌, ◌↔◌, refl, sym, ◌∙◌, ap, Bool, true, false, Option, none, some, List, ◌==◌, if◌then◌else◌,
}
use colm.Compare.{or_else, cmp_ord, cmp_table}
use colm.Compare.Laws.{IsCompare, cmp_ord-IsCompare, cmp_table-IsCompare}
use colm.ColmMap.Order.{IsKeyOrder}
use colm.TreeCompare.{
  Head, Tree, null, tree, Kids, end, kid, cmp_string, string_text, cmp_tokdata, cmp_content,
  cmp_head, cmp_tree, cmp_kids, map_cmp, lel_id_ptr, lel_id_str,
}
use colm.TreeCompare.Order.{map_cmp-IsKeyOrder}

-- pointers have one value, strings one text, other trees the same token data or none
abbrev pub SameContent : Bool → Bool → Head → Head → Type 0
SameContent true str a b = a.value ≡ b.value
SameContent false true a b = string_text a.text ≡ string_text b.text
SameContent false false a b = a.text ≡ b.text

abbrev pub SameHead : Head → Head → Type 0
SameHead a b = (a.id ≡ b.id) × SameContent (a.id == lel_id_ptr) (a.id == lel_id_str) a b

-- the trees have the same content at the root and the same children, as many of them
abbrev mutual
  pub SameTree : Tree → Tree → Type 0
  SameTree null null = Unit
  SameTree (tree h ks) (tree h' ks') = SameHead h h' × SameKids ks ks'
  SameTree _ _ = ⊥

  pub SameKids : Kids → Kids → Type 0
  SameKids end end = Unit
  SameKids (kid t ks) (kid t' ks') = SameTree t t' × SameKids ks ks'
  SameKids _ _ = ⊥

abbrev pub SameKey : Bool → (ℕ → Tree) → ℕ → ℕ → Type 0
SameKey true tree_at a b = SameTree (tree_at a) (tree_at b)
SameKey false tree_at a b = a ≡ b

or_else_iff :
    (p q : Ordering) {P Q : Type 0}
    → (p ≡ eq) ↔ P
    → (P → (q ≡ eq) ↔ Q)
    → (or_else p q ≡ eq) ↔ (P × Q)
or_else_iff lt q u v = (λ e. absurd cc, λ h. let e : lt ≡ eq = u.1 h.0 in absurd cc)
or_else_iff gt q u v = (λ e. absurd cc, λ h. let e : gt ≡ eq = u.1 h.0 in absurd cc)
or_else_iff eq q u v = (λ e. (u.0 refl, (v (u.0 refl)).0 e), λ h. (v h.0).1 h.1)

of_compare_iff :
    {A : Type 0} (cmp : A → A → Ordering) → IsCompare cmp → (a b : A) → (cmp a b ≡ eq) ↔ (a ≡ b)
of_compare_iff cmp o a b = (o.eq_of_cmp a b, λ e. ap (cmp a) (sym e) ∙ o.cmp_refl a)

cmp_string_iff : (a b : List ℕ) → (cmp_string a b ≡ eq) ↔ (a ≡ b)
unfolding cmp_string cmp_table
cmp_string_iff = of_compare_iff (cmp_table cmp_ord) (cmp_table-IsCompare cmp_ord-IsCompare)

cmp_tokdata_iff : (a b : Option (List ℕ)) → (cmp_tokdata a b ≡ eq) ↔ (a ≡ b)
unfolding cmp_tokdata
cmp_tokdata_iff none none = (λ e. refl, λ e. refl)
cmp_tokdata_iff none (some b) = (λ e. absurd cc, λ e. absurd cc)
cmp_tokdata_iff (some a) none = (λ e. absurd cc, λ e. absurd cc)
cmp_tokdata_iff (some a) (some b) =
    (λ e. ap some ((cmp_string_iff a b).0 e), λ e. (cmp_string_iff a b).1 cc)

cmp_content_iff :
    (id : ℕ) (a b : Head)
    → (cmp_content id a b ≡ eq) ↔ SameContent (id == lel_id_ptr) (id == lel_id_str) a b
unfolding cmp_content
cmp_content_iff id a b = by_kind (id == lel_id_ptr) (id == lel_id_str)
  where
    by_kind :
        (ptr str : Bool)
        → ((if ptr
              then cmp_ord a.value b.value
              else if str
              then cmp_string (string_text a.text) (string_text b.text)
              else cmp_tokdata a.text b.text)
            ≡ eq)
          ↔ SameContent ptr str a b
    by_kind true str = of_compare_iff cmp_ord cmp_ord-IsCompare a.value b.value
    by_kind false true = cmp_string_iff (string_text a.text) (string_text b.text)
    by_kind false false = cmp_tokdata_iff a.text b.text

cmp_head_iff : (a b : Head) → (cmp_head a b ≡ eq) ↔ SameHead a b
unfolding cmp_head
cmp_head_iff a b =
    or_else_iff (cmp_ord a.id b.id) (cmp_content a.id a b)
      (of_compare_iff cmp_ord cmp_ord-IsCompare a.id b.id) (λ e. cmp_content_iff a.id a b)

mutual
  unfolding cmp_tree cmp_kids

  tree_iff : (a b : Tree) → (cmp_tree a b ≡ eq) ↔ SameTree a b
  tree_iff null null = (λ e. tt, λ h. refl)
  tree_iff null (tree h ks) = (λ e. absurd cc, λ h. absurd h)
  tree_iff (tree h ks) null = (λ e. absurd cc, λ h. absurd h)
  tree_iff (tree h ks) (tree h' ks') =
      or_else_iff (cmp_head h h') (cmp_kids ks ks') (cmp_head_iff h h') (λ e. kids_iff ks ks')

  kids_iff : (a b : Kids) → (cmp_kids a b ≡ eq) ↔ SameKids a b
  kids_iff end end = (λ e. tt, λ h. refl)
  kids_iff end (kid t ks) = (λ e. absurd cc, λ h. absurd h)
  kids_iff (kid t ks) end = (λ e. absurd cc, λ h. absurd h)
  kids_iff (kid t ks) (kid t' ks') =
      or_else_iff (cmp_tree t t') (cmp_kids ks ks') (tree_iff t t') (λ e. kids_iff ks ks')

-- `map_cmp` orders the keys of a map, whether they are trees or numbers: it is total, transitive,
-- and answers the opposite with its arguments exchanged. It answers 0 exactly for equal numbers, and
-- for trees, wherever they lie, of one structure: both null, or with the same `id`, the same
-- content, which is the value of a pointer, the text of a string or else the token data, and the
-- same children, as many of them.
pub map_cmp-SameKey :
    (type_tree : Bool) (tree_at : ℕ → Tree) (a b : ℕ)
    → IsKeyOrder (map_cmp type_tree tree_at)
      × ((map_cmp type_tree tree_at a b ≡ eq) ↔ SameKey type_tree tree_at a b)
unfolding map_cmp
map_cmp-SameKey true tree_at a b =
    (map_cmp-IsKeyOrder true tree_at, tree_iff (tree_at a) (tree_at b))
map_cmp-SameKey false tree_at a b =
    (map_cmp-IsKeyOrder false tree_at, of_compare_iff cmp_ord cmp_ord-IsCompare a b)
