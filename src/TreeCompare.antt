-- ===== src/TreeCompare.antt =====
-- src/tree.c and src/string.c: how trees are compared, as keys of a map.
--
-- A tree is kept by what `colm_cmp_tree` reads: `id`, the value of a pointer, the text of a string
-- or the token data, and its children from `tree_child` on. Numbers that are only compared are
-- natural numbers in the same order. A result is kept as its sign. The text of a string is never
-- null.
pub mod Weak
pub mod Order
pub mod Same
use Prim.Native.Nat.{Ordering}
use Prim.Native.Nat.Ordering.{lt, eq, gt}
use colm.Prelude.{ℕ, Bool, Option, none, some, List, [], ◌==◌, ltb, if◌then◌else◌, length}
use colm.Compare.{or_else, cmp_ord, cmp_items}

abbrev pub lel_id_ptr : ℕ
lel_id_ptr = 1

abbrev pub lel_id_str : ℕ
lel_id_str = 2

pub record Head : Type 0 where
  pub id : ℕ
  pub value : ℕ
  pub text : Option (List ℕ)

mutual
  pub data Tree : Type 0 where
    null : Tree
    tree : Head → Kids → Tree

  pub data Kids : Type 0 where
    end : Kids
    kid : Tree → Kids → Kids

-- `memcmp` of texts of one length
unfoldable pub cmp_string : List ℕ → List ℕ → Ordering
unfolding cmp_items
cmp_string s1 s2 =
    if ltb (length s1) (length s2)
    then lt
    else if ltb (length s2) (length s1)
    then gt
    else cmp_items cmp_ord s1 s2

abbrev pub string_text : Option (List ℕ) → List ℕ
string_text none = []
string_text (some s) = s

-- the token data, which may be null
unfoldable pub cmp_tokdata : Option (List ℕ) → Option (List ℕ) → Ordering
cmp_tokdata none none = eq
cmp_tokdata none (some d) = lt
cmp_tokdata (some c) none = gt
cmp_tokdata (some c) (some d) = cmp_string c d

-- what trees of one `id` are told apart by ahead of their children
unfoldable pub cmp_content : ℕ → Head → Head → Ordering
cmp_content id tree1 tree2 =
    if id == lel_id_ptr
    then cmp_ord tree1.value tree2.value
    else if id == lel_id_str
    then cmp_string (string_text tree1.text) (string_text tree2.text)
    else cmp_tokdata tree1.text tree2.text

-- the part of `colm_cmp_tree` ahead of the children, for trees that are not null
unfoldable pub cmp_head : Head → Head → Ordering
cmp_head tree1 tree2 = or_else (cmp_ord tree1.id tree2.id) (cmp_content tree1.id tree1 tree2)

unfoldable mutual
  pub cmp_tree : Tree → Tree → Ordering
  cmp_tree null null = eq
  cmp_tree null (tree head2 kids2) = lt
  cmp_tree (tree head1 kids1) null = gt
  cmp_tree (tree head1 kids1) (tree head2 kids2) =
      or_else (cmp_head head1 head2) (cmp_kids kids1 kids2)

  -- the loop over the children
  pub cmp_kids : Kids → Kids → Ordering
  cmp_kids end end = eq
  cmp_kids end (kid t2 kids2) = lt
  cmp_kids (kid t1 kids1) end = gt
  cmp_kids (kid t1 kids1) (kid t2 kids2) = or_else (cmp_tree t1 t2) (cmp_kids kids1 kids2)

-- `map_cmp`: keys are addresses, of trees or else compared as numbers
unfoldable pub map_cmp : Bool → (ℕ → Tree) → ℕ → ℕ → Ordering
map_cmp type_tree tree_at key1 key2 =
    if type_tree then cmp_tree (tree_at key1) (tree_at key2) else cmp_ord key1 key2
