-- ===== src/Examples/Lists.antt =====
-- The lists of src/list.c and the iterators of src/iter.c on small lists.
use colm.Prelude.{◌≡◌, refl, true, some, [], ◌∷◌, ◌==◌, if◌then◌else◌, arith}
use colm.Links.{Links}
use colm.Links.Chain.{Holds}
use colm.Links.Iter.{
  iterate, list_iter_advance, rev_list_iter_advance, map_iter_advance, init_list_iter,
  iterate-list_iter_advance,
}
use colm.ColmList.{
  ColmList, ValueInfo, vlist_append, vlist_prepend, vlist_detach_head, vlist_detach_tail,
}
use colm.ColmList.Deque.{IsList, values, vlist_add-values, Taken, vlist_detach-Taken}
use mathlib.Core.List.{reverse}

-- two elements, whose values are trees with the addresses 500 and 600
abbrev pair_links : Links
pair_links = record {
  head = 3;
  tail = 7;
  next = λ a. if a == 3 then 7 else 0;
  prev = λ a. if a == 7 then 3 else 0;
}

abbrev pair_list : ColmList
pair_list = record {
  links = pair_links;
  list_len = 2;
  value = λ a. if a == 3 then 500 else 600;
  refs = λ a. 1;
}

abbrev tree_info : ValueInfo
tree_info = record { type_tree = true; id = λ a. 5; first_struct_el_id = 100 }

pair-Holds : Holds pair_links (3 ∷ 7 ∷ [])
pair-Holds = record {
  head_eq = refl;
  tail_eq = refl;
  chain = (omega arith, refl, refl, (omega arith, refl, refl, tt));
  distinct = (refl, (refl, tt));
}

pair-IsList : IsList pair_list (3 ∷ 7 ∷ [])
pair-IsList = record { holds = pair-Holds; len_eq = refl }

iterate-list_iter_advance_example :
    (iterate 3 (list_iter_advance pair_links 40) (init_list_iter 40) ≡ some (3 ∷ 7 ∷ []))
    × (iterate 3 (map_iter_advance pair_links 40) (init_list_iter 40) ≡ some (3 ∷ 7 ∷ []))
    × (iterate 3 (rev_list_iter_advance pair_links 40) (init_list_iter 40)
        ≡ some (reverse (3 ∷ 7 ∷ [])))
iterate-list_iter_advance_example = iterate-list_iter_advance pair_links (3 ∷ 7 ∷ []) 40 pair-Holds

vlist_add-values_example :
    IsList (vlist_append 9 700 pair_list) (3 ∷ 7 ∷ 9 ∷ [])
    × (values (vlist_append 9 700 pair_list) (3 ∷ 7 ∷ 9 ∷ []) ≡ 500 ∷ 600 ∷ 700 ∷ [])
    × IsList (vlist_prepend 9 700 pair_list) (9 ∷ 3 ∷ 7 ∷ [])
    × (values (vlist_prepend 9 700 pair_list) (9 ∷ 3 ∷ 7 ∷ []) ≡ 700 ∷ 500 ∷ 600 ∷ [])
vlist_add-values_example =
    vlist_add-values pair_list 9 700 (omega arith) (3 ∷ 7 ∷ []) refl pair-IsList

vlist_detach-Taken_example :
    Taken tree_info pair_list 3 (7 ∷ []) (vlist_detach_head tree_info pair_list)
    × Taken tree_info pair_list 7 (3 ∷ []) (vlist_detach_tail tree_info pair_list)
vlist_detach-Taken_example =
    vlist_detach-Taken tree_info pair_list 3 7 (7 ∷ []) (3 ∷ []) refl (λ h i. omega arith)
      (λ h i. omega arith) pair-IsList
