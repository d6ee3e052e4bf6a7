-- ===== src/TreeCompare/Order.antt =====
-- The comparison of trees, and with it that of keys, is an order.
use Prim.Native.Nat.{Ordering}
use Prim.Native.Nat.Ordering.{eq}
use colm.Prelude.{
  ℕ, ◌≡◌, refl, sym, ◌∙◌, ap, Bool, true, false, Option, none, some, List, ◌==◌, if◌then◌else◌,
}
use mathlib.Core.Path.{subst, subst₂}
use colm.Compare.{or_else, cmp_ord, cmp_table}
use colm.Compare.Laws.{flip, IsCompare, cmp_ord-IsCompare, cmp_table-IsCompare}
use colm.ColmMap.Order.{IsKeyOrder}
use colm.TreeCompare.Weak.{
  Transits, IsWeakOrder, or_else-Transits, or_else-flip, or_else-eq, from_least, to_least,
  of_compare, along,
}
use colm.TreeCompare.{
  Head, Tree, null, tree, Kids, end, kid, cmp_string, string_text, cmp_tokdata, cmp_content,
  cmp_head, cmp_tree, cmp_kids, map_cmp, lel_id_ptr, lel_id_str,
}

cmp_string-IsWeakOrder : IsWeakOrder cmp_string
unfolding cmp_string cmp_table
cmp_string-IsWeakOrder = of_compare (cmp_table cmp_ord) (cmp_table-IsCompare cmp_ord-IsCompare)

cmp_tokdata-IsWeakOrder : IsWeakOrder cmp_tokdata
unfolding cmp_tokdata
cmp_tokdata-IsWeakOrder = record { cmp_refl = same; cmp_flip = flipped; transits = trans }
  where
    s : IsWeakOrder cmp_string
    s = cmp_string-IsWeakOrder

    same : (a : Option (List ℕ)) → cmp_tokdata a a ≡ eq
    same none = refl
    same (some a) = s.cmp_refl a

    flipped : (a b : Option (List ℕ)) → cmp_tokdata b a ≡ flip (cmp_tokdata a b)
    flipped none none = refl
    flipped none (some b) = refl
    flipped (some a) none = refl
    flipped (some a) (some b) = s.cmp_flip a b

    trans :
        (a b c : Option (List ℕ)) → Transits (cmp_tokdata a b) (cmp_tokdata b c) (cmp_tokdata a c)
    trans none none none = refl
    trans none none (some c) = refl
    trans none (some b) none = tt
    trans none (some b) (some c) = from_least (cmp_string b c)
    trans (some a) none c = tt
    trans (some a) (some b) none = to_least (cmp_string a b)
    trans (some a) (some b) (some c) = s.transits a b c

chosen :
    (ptr str : Bool)
    → IsWeakOrder (λ (a b : Head).
      if ptr
      then cmp_ord a.value b.value
      else if str
      then cmp_string (string_text a.text) (string_text b.text)
      else cmp_tokdata a.text b.text)
chosen true str = along (λ h. h.value) cmp_ord (of_compare cmp_ord cmp_ord-IsCompare)
chosen false true = along (λ h. string_text h.text) cmp_string cmp_string-IsWeakOrder
chosen false false = along (λ h. h.text) cmp_tokdata cmp_tokdata-IsWeakOrder

cmp_content-IsWeakOrder : (id : ℕ) → IsWeakOrder (cmp_content id)
unfolding cmp_content
cmp_content-IsWeakOrder id = chosen (id == lel_id_ptr) (id == lel_id_str)

-- the `id` decides first, and what follows compares trees of one `id`
cmp_head-IsWeakOrder : IsWeakOrder cmp_head
unfolding cmp_head
cmp_head-IsWeakOrder = record {
  cmp_refl = λ a. or_else-eq _ _ (o.cmp_refl a.id) ((content a.id).cmp_refl a);
  cmp_flip = λ a b.
      or_else-flip (cmp_ord a.id b.id) (cmp_ord b.id a.id) (cmp_content a.id a b)
        (cmp_content b.id b a) (o.cmp_flip a.id b.id)
        (λ e.
          ap (λ i. cmp_content i b a) (sym (o.eq_of_cmp a.id b.id e))
          ∙ (content a.id).cmp_flip a b);
  transits = λ a b c.
      or_else-Transits (cmp_ord a.id b.id) (cmp_ord b.id c.id) (cmp_ord a.id c.id)
        (cmp_content a.id a b) (cmp_content b.id b c) (cmp_content a.id a c)
        ((of_compare cmp_ord o).transits a.id b.id c.id)
        (λ e e'.
          subst (λ i. Transits (cmp_content a.id a b) (cmp_content i b c) (cmp_content a.id a c))
            (o.eq_of_cmp a.id b.id e) ((content a.id).transits a b c));
}
  where
    o : IsCompare cmp_ord
    o = cmp_ord-IsCompare

    content : (id : ℕ) → IsWeakOrder (cmp_content id)
    content id = cmp_content-IsWeakOrder id

mutual
  unfolding cmp_tree cmp_kids

  tree_refl : (a : Tree) → cmp_tree a a ≡ eq
  tree_refl null = refl
  tree_refl (tree h ks) = or_else-eq _ _ (cmp_head-IsWeakOrder.cmp_refl h) (kids_refl ks)

  kids_refl : (a : Kids) → cmp_kids a a ≡ eq
  kids_refl end = refl
  kids_refl (kid t ks) = or_else-eq _ _ (tree_refl t) (kids_refl ks)

mutual
  unfolding cmp_tree cmp_kids

  tree_flip : (a b : Tree) → cmp_tree b a ≡ flip (cmp_tree a b)
  tree_flip null null = refl
  tree_flip null (tree h ks) = refl
  tree_flip (tree h ks) null = refl
  tree_flip (tree h ks) (tree h' ks') =
      or_else-flip (cmp_head h h') (cmp_head h' h) (cmp_kids ks ks') (cmp_kids ks' ks)
        (cmp_head-IsWeakOrder.cmp_flip h h') (λ e. kids_flip ks ks')

  kids_flip : (a b : Kids) → cmp_kids b a ≡ flip (cmp_kids a b)
  kids_flip end end = refl
  kids_flip end (kid t ks) = refl
  kids_flip (kid t ks) end = refl
  kids_flip (kid t ks) (kid t' ks') =
      or_else-flip (cmp_tree t t') (cmp_tree t' t) (cmp_kids ks ks') (cmp_kids ks' ks)
        (tree_flip t t') (λ e. kids_flip ks ks')

mutual
  unfolding cmp_tree cmp_kids

  tree-Transits : (a b c : Tree) → Transits (cmp_tree a b) (cmp_tree b c) (cmp_tree a c)
  tree-Transits null null null = refl
  tree-Transits null null (tree h ks) = refl
  tree-Transits null (tree h ks) null = tt
  tree-Transits null (tree h ks) (tree h' ks') =
      from_least (or_else (cmp_head h h') (cmp_kids ks ks'))
  tree-Transits (tree h ks) null c = tt
  tree-Transits (tree h ks) (tree h' ks') null =
      to_least (or_else (cmp_head h h') (cmp_kids ks ks'))
  tree-Transits (tree h ks) (tree h' ks') (tree h'' ks'') =
      or_else-Transits (cmp_head h h') (cmp_head h' h'') (cmp_head h h'') (cmp_kids ks ks')
        (cmp_kids ks' ks'') (cmp_kids ks ks'') (cmp_head-IsWeakOrder.transits h h' h'')
        (λ e e'. kids-Transits ks ks' ks'')

  kids-Transits : (a b c : Kids) → Transits (cmp_kids a b) (cmp_kids b c) (cmp_kids a c)
  kids-Transits end end end = refl
  kids-Transits end end (kid t ks) = refl
  kids-Transits end (kid t ks) end = tt
  kids-Transits end (kid t ks) (kid t' ks') = from_least (or_else (cmp_tree t t') (cmp_kids ks ks'))
  kids-Transits (kid t ks) end c = tt
  kids-Transits (kid t ks) (kid t' ks') end = to_least (or_else (cmp_tree t t') (cmp_kids ks ks'))
  kids-Transits (kid t ks) (kid t' ks') (kid t'' ks'') =
      or_else-Transits (cmp_tree t t') (cmp_tree t' t'') (cmp_tree t t'') (cmp_kids ks ks')
        (cmp_kids ks' ks'') (cmp_kids ks ks'') (tree-Transits t t' t'')
        (λ e e'. kids-Transits ks ks' ks'')

key_order : {K : Type 0} (cmp : K → K → Ordering) → IsWeakOrder cmp → IsKeyOrder cmp
key_order cmp o = record {
  cmp_refl = o.cmp_refl;
  cmp_flip = o.cmp_flip;
  lt_trans = λ a b c e e'. subst₂ (λ p q. Transits p q (cmp a c)) e e' (o.transits a b c);
  eq_lt_trans = λ a b c e e'. subst₂ (λ p q. Transits p q (cmp a c)) e e' (o.transits a b c);
}

-- `map_cmp` orders the keys of a map, whether they are trees or numbers: it is total, transitive,
-- and answers the opposite with its arguments exchanged. Trees that are equal to it, whatever
-- their addresses, compare alike with all other ones.
pub map_cmp-IsKeyOrder :
    (type_tree : Bool) (tree_at : ℕ → Tree) → IsKeyOrder (map_cmp type_tree tree_at)
unfolding map_cmp
map_cmp-IsKeyOrder true tree_at = key_order (map_cmp true tree_at) (
    along tree_at cmp_tree
      (record { cmp_refl = tree_refl; cmp_flip = tree_flip; transits = tree-Transits }))
map_cmp-IsKeyOrder false tree_at =
    key_order (map_cmp false tree_at) (of_compare cmp_ord cmp_ord-IsCompare)
