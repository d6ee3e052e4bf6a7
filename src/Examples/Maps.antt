-- ===== src/Examples/Maps.antt =====
-- The maps of src/map.c on small maps, whose keys are numbers: the key of an element is its address.
use Prim.Native.Nat.{Ordering}
use colm.Prelude.{
  ℕ, ◌+◌, ◌≡◌, ◌↔◌, refl, true, false, Option, none, some, List, [], ◌∷◌, ◌++◌, ◌==◌, if◌then◌else◌,
  arith,
}
use colm.Links.{Links, list_add_after}
use colm.Links.Chain.{Holds}
use colm.Compare.{cmp_ord, cmp_items}
use colm.ColmMap.{
  MapTree, leaf, node, Frame, left_of, ColmMap, plug, recalc_heights, rotate, map_rebalance,
}
use colm.ColmMap.Insert.{
  find_first_unbal_gp, settle, attach_tree, attach_way, attach_links, map_attach_rebal, insert_at,
  map_insert_el, map_impl_find,
}
use colm.ColmMap.Detach.{
  find_first_unbal_el, take_out, second_move, move_down, fix_up, detach_tree, map_detach,
  map_detach_by_key,
}
use colm.ColmMap.Balance.{inorder}
use colm.ColmMap.Order.{IsKeyOrder}
use colm.ColmMap.Attach.{IsMap}
use colm.ColmMap.Search.{Inserted, map_insert_el-Inserted}
use colm.ColmMap.TakeOut.{map_detach-IsMap}
use colm.ColmMap.Find.{Found, map_impl_find-Found}
use colm.ColmMap.Roundtrip.{map_impl_find-map_insert_el, DetachedByKey, map_detach_by_key-Detached}
use colm.ColmMap.Depth.{find_within, find_within-map_impl_find}
use colm.TreeCompare.Same.{SameKey, map_cmp-SameKey}
use colm.TreeCompare.{
  Tree, null, tree, end, map_cmp, cmp_tree, cmp_kids, cmp_head, cmp_content, cmp_tokdata,
  cmp_string,
}
use colm.TreeCompare.Order.{map_cmp-IsKeyOrder}

abbrev no_trees : ℕ → Tree
no_trees a = null

abbrev by_number : ℕ → ℕ → Ordering
by_number = map_cmp false no_trees

abbrev own_key : ℕ → ℕ
own_key a = a

-- two elements, one below the other
abbrev two_links : Links
two_links = record {
  head = 10;
  tail = 20;
  next = λ a. if a == 10 then 20 else 0;
  prev = λ a. if a == 20 then 10 else 0;
}

abbrev two : ColmMap
two = record { root = node leaf 10 2 (node leaf 20 1 leaf); tree_size = 2; links = two_links }

two-Holds : Holds two_links (10 ∷ 20 ∷ [])
two-Holds = record {
  head_eq = refl;
  tail_eq = refl;
  chain = (omega arith, refl, refl, (omega arith, refl, refl, tt));
  distinct = (refl, (refl, tt));
}

two-IsMap : IsMap by_number own_key two
unfolding map_cmp cmp_ord
two-IsMap = record {
  balanced = omega arith;
  sorted = ((refl, tt), (tt, tt));
  holds = two-Holds;
  size_eq = refl;
}

-- the third element is put behind both, and the tree is turned
inserted_root : Option (ℕ × ℕ × ColmMap) → MapTree
inserted_root none = leaf
inserted_root (some (el, found, map)) = map.root

insert_thirty :
    inserted_root (map_insert_el by_number own_key two 30)
    ≡ node (node leaf 10 1 leaf) 20 2 (node leaf 30 1 leaf)
unfolding inserted_root map_insert_el insert_at map_attach_rebal attach_tree attach_way attach_links
    settle find_first_unbal_gp recalc_heights map_rebalance rotate map_cmp cmp_ord
insert_thirty = refl

map_insert_el-Inserted_example :
    Inserted by_number own_key two 30 (map_insert_el by_number own_key two 30)
map_insert_el-Inserted_example =
    map_insert_el-Inserted by_number own_key (map_cmp-IsKeyOrder false no_trees) two 30
      (omega arith) refl two-IsMap

-- four elements; without the first one the tree is turned
abbrev four_links : Links
four_links = record {
  head = 10;
  tail = 40;
  next = λ a. if a == 40 then 0 else a + 10;
  prev = λ a. if a == 40 then 30 else if a == 30 then 20 else if a == 20 then 10 else 0;
}

abbrev four : ColmMap
four = record {
  root = node (node leaf 10 1 leaf) 20 3 (node leaf 30 2 (node leaf 40 1 leaf));
  tree_size = 4;
  links = four_links;
}

four-Holds : Holds four_links (10 ∷ 20 ∷ 30 ∷ 40 ∷ [])
four-Holds = record {
  head_eq = refl;
  tail_eq = refl;
  chain = (
    omega arith,
    refl,
    refl,
    (omega arith, refl, refl, (omega arith, refl, refl, (omega arith, refl, refl, tt))),
  );
  distinct = (refl, (refl, (refl, (refl, tt))));
}

four-IsMap : IsMap by_number own_key four
unfolding map_cmp cmp_ord
four-IsMap = record {
  balanced = omega arith;
  sorted = ((refl, (refl, (refl, tt))), ((refl, (refl, tt)), ((refl, tt), (tt, tt))));
  holds = four-Holds;
  size_eq = refl;
}

abbrev above_ten : List Frame
above_ten = left_of 20 3 (node leaf 30 2 (node leaf 40 1 leaf)) ∷ []

detached_root : Option ColmMap → MapTree
detached_root none = leaf
detached_root (some map) = map.root

detach_ten :
    detached_root (map_detach four (node leaf 10 1 leaf) above_ten)
    ≡ node (node leaf 20 1 leaf) 30 2 (node leaf 40 1 leaf)
unfolding detached_root map_detach detach_tree take_out fix_up find_first_unbal_el move_down
    second_move recalc_heights map_rebalance rotate
detach_ten = refl

map_detach-IsMap_example :
    (map' : ColmMap) × (xs : List ℕ) × (ys : List ℕ) × (map_detach four
        (node leaf 10 1 leaf)
        above_ten
      ≡ some map')
    × IsMap by_number own_key map'
    × (inorder four.root ≡ xs ++ 10 ∷ ys)
    × (inorder map'.root ≡ xs ++ ys)
map_detach-IsMap_example =
    map_detach-IsMap by_number own_key four leaf 10 1 leaf above_ten refl four-IsMap

map_detach_by_key-Detached_example :
    DetachedByKey by_number own_key
      (map_cmp-IsKeyOrder false no_trees)
      four
      20
      (map_detach_by_key by_number own_key four 20)
map_detach_by_key-Detached_example =
    map_detach_by_key-Detached by_number own_key (map_cmp-IsKeyOrder false no_trees) four 20
      four-IsMap

map_impl_find-Found_example :
    Found by_number own_key four 40 (map_impl_find by_number own_key four 40)
map_impl_find-Found_example =
    map_impl_find-Found by_number own_key (map_cmp-IsKeyOrder false no_trees) four 40 four-IsMap

abbrev with_thirty : ColmMap
with_thirty = record {
  root = node (node leaf 10 1 leaf) 20 2 (node leaf 30 1 leaf);
  tree_size = 3;
  links = list_add_after 20 30 two_links;
}

insert_thirty_map : map_insert_el by_number own_key two 30 ≡ some (30, 30, with_thirty)
unfolding map_insert_el insert_at map_attach_rebal attach_tree attach_way attach_links settle
    find_first_unbal_gp recalc_heights map_rebalance rotate map_cmp cmp_ord
insert_thirty_map = refl

map_impl_find-map_insert_el_example :
    (l : MapTree) × (h : ℕ) × (r : MapTree) × (way : List Frame) × (map_impl_find by_number own_key
        with_thirty 30
      ≡ some (node l 30 h r, way))
    × (plug (node l 30 h r) way ≡ with_thirty.root)
map_impl_find-map_insert_el_example =
    map_impl_find-map_insert_el by_number own_key (map_cmp-IsKeyOrder false no_trees) two
      with_thirty 30 (omega arith) refl two-IsMap insert_thirty_map

find_within-map_impl_find_example :
    find_within by_number own_key 5 15 four.root [] ≡ some (map_impl_find by_number own_key four 15)
find_within-map_impl_find_example =
    find_within-map_impl_find by_number own_key four 15 3 (omega arith) four-IsMap

-- a token with a text of its own under each address
abbrev tokens : ℕ → Tree
tokens a = tree (record { id = 5; value = 0; text = some (a ∷ []) }) end

later_text : map_cmp true tokens 97 98 ≡ Ordering.lt
unfolding map_cmp cmp_tree cmp_kids cmp_head cmp_content cmp_tokdata cmp_string cmp_items cmp_ord
later_text = refl

map_cmp-SameKey_example :
    IsKeyOrder (map_cmp true tokens)
    × ((map_cmp true tokens 97 98 ≡ Ordering.eq) ↔ SameKey true tokens 97 98)
map_cmp-SameKey_example = map_cmp-SameKey true tokens 97 98
