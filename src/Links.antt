-- ===== src/Links.antt =====
-- src/map.c and src/list.c: the doubly linked lists in the elements of maps and lists.
--
-- Elements are addresses, 0 is null. `next` and `prev` are the members of all elements, as a
-- memory; `head` and `tail` are members of the list.
pub mod Chain
pub mod Sequence
pub mod Before
pub mod After
pub mod Detach
pub mod Iter
use colm.Prelude.{ℕ, ◌==◌, if◌then◌else◌}

-- a write to the member of one element
abbrev pub update : (ℕ → ℕ) → ℕ → ℕ → ℕ → ℕ
update f a v b = if b == a then v else f b

pub record Links : Type 0 where
  pub head : ℕ
  pub tail : ℕ
  pub next : ℕ → ℕ
  pub prev : ℕ → ℕ

-- an empty list, as `map_list_abandon` leaves it
unfoldable pub list_abandon : Links → Links
list_abandon d = record d { head = 0; tail = 0 }

-- the reverse pointers of `map_list_add_after`, when the forward pointers are set
unfoldable pub set_reverse : ℕ → Links → Links
set_reverse new_el d =
    if d.next new_el == 0
    then record d { tail = new_el }
    else record d { prev = update d.prev (d.next new_el) new_el }

unfoldable pub list_add_after : ℕ → ℕ → Links → Links
unfolding set_reverse
list_add_after prev_el new_el d =
    let e = record d { prev = update d.prev new_el prev_el } in
    set_reverse new_el (
      if prev_el == 0
      then record e { head = new_el; next = update e.next new_el e.head }
      else record e { next = update (update e.next new_el (e.next prev_el)) prev_el new_el })

-- the forward pointers of `map_list_add_before`, when the reverse pointers are set
unfoldable pub set_forward : ℕ → Links → Links
set_forward new_el d =
    if d.prev new_el == 0
    then record d { head = new_el }
    else record d { next = update d.next (d.prev new_el) new_el }

unfoldable pub list_add_before : ℕ → ℕ → Links → Links
unfolding set_forward
list_add_before next_el new_el d =
    let e = record d { next = update d.next new_el next_el } in
    set_forward new_el (
      if next_el == 0
      then record e { tail = new_el; prev = update e.prev new_el e.tail }
      else record e { prev = update (update e.prev new_el (e.prev next_el)) next_el new_el })

-- the forward pointers of `map_list_detach`, then the reverse pointers
unfoldable pub skip_forward : ℕ → Links → Links
skip_forward el d =
    if d.prev el == 0
    then record d { head = d.next el }
    else record d { next = update d.next (d.prev el) (d.next el) }

unfoldable pub skip_reverse : ℕ → Links → Links
skip_reverse el d =
    if d.next el == 0
    then record d { tail = d.prev el }
    else record d { prev = update d.prev (d.next el) (d.prev el) }

unfoldable pub list_detach : ℕ → Links → Links
unfolding skip_forward skip_reverse
list_detach el d = skip_reverse el (skip_forward el d)
