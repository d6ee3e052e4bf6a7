-- ===== src/ColmList.antt =====
-- src/list.c: the lists of the run time, in elements and in values.
--
-- A structure that holds an element is kept as the address of the element, so that
-- `colm_generic_el_container` changes nothing; `value` is the field 0 of all structures and `refs`
-- the reference counts of all trees, as memories. A null pointer that is followed and an assertion
-- that fails are `none`. `list_len` is a `long` and wraps.
pub mod Ends
pub mod Deque
use colm.Prelude.{
  ℕ, ◌+◌, ◌-◌, ◌%◌, ◌^◌, Bool, true, false, Option, none, some, ◌==◌, ltb, if◌then◌else◌,
}
use colm.Links.{Links, update, list_add_after, list_add_before, list_detach}

pub record ColmList : Type 0 where
  pub links : Links
  pub list_len : ℕ
  pub value : ℕ → ℕ
  pub refs : ℕ → ℕ

-- what the functions read from the program: whether values are trees, the `id` of a tree and
-- `first_struct_el_id`
pub record ValueInfo : Type 0 where
  pub type_tree : Bool
  pub id : ℕ → ℕ
  pub first_struct_el_id : ℕ

unfoldable pub list_add_after_len : ℕ → ℕ → ColmList → ColmList
list_add_after_len prev_el new_el l = record l {
  links = list_add_after prev_el new_el l.links;
  list_len = (l.list_len + 1) % 2 ^ 64;
}

unfoldable pub list_add_before_len : ℕ → ℕ → ColmList → ColmList
list_add_before_len next_el new_el l = record l {
  links = list_add_before next_el new_el l.links;
  list_len = (l.list_len + 1) % 2 ^ 64;
}

unfoldable pub list_prepend : ℕ → ColmList → ColmList
unfolding list_add_before_len
list_prepend new_el l = list_add_before_len l.links.head new_el l

unfoldable pub list_append : ℕ → ColmList → ColmList
unfolding list_add_after_len
list_append new_el l = list_add_after_len l.links.tail new_el l

unfoldable pub colm_list_detach : ℕ → ColmList → Option ColmList
colm_list_detach el l =
    if el == 0
    then none
    else some
        (record l { links = list_detach el l.links; list_len = (l.list_len + 2 ^ 64 - 1) % 2 ^ 64 })

-- the member `refs` of a tree goes up, unless the tree is null
unfoldable pub tree_upref : ValueInfo → ℕ → ColmList → Option ColmList
tree_upref info tree l =
    if tree == 0
    then some l
    else if ltb (info.id tree) info.first_struct_el_id
    then some (record l { refs = update l.refs tree (l.refs tree + 1) })
    else none

-- a value in a new structure, whose element is `el`
unfoldable pub vlist_append : ℕ → ℕ → ColmList → ColmList
unfolding list_append
vlist_append el v l = list_append el (record l { value = update l.value el v })

unfoldable pub vlist_prepend : ℕ → ℕ → ColmList → ColmList
unfolding list_prepend
vlist_prepend el v l = list_prepend el (record l { value = update l.value el v })

-- what is common to `colm_vlist_detach_tail` and `colm_vlist_detach_head`
unfoldable pub take_value : ValueInfo → ℕ → ColmList → Option (ℕ × ColmList)
unfolding tree_upref
take_value info el l =
    if info.type_tree
    then elim (tree_upref info (l.value el) l) [ none ↦ none | some l' ↦ some (l.value el, l') ]
    else some (l.value el, l)

unfoldable pub vlist_detach_tail : ValueInfo → ColmList → Option (ℕ × ColmList)
vlist_detach_tail info l = elim (colm_list_detach l.links.tail l) [
  | none ↦ none
  | some l' ↦ take_value info l.links.tail l'
]

unfoldable pub vlist_detach_head : ValueInfo → ColmList → Option (ℕ × ColmList)
vlist_detach_head info l = elim (colm_list_detach l.links.head l) [
  | none ↦ none
  | some l' ↦ take_value info l.links.head l'
]
