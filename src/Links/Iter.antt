-- ===== src/Links/Iter.antt =====
-- src/iter.c: the iterators over lists and maps, which step along the linked list.
use colm.Prelude.{
  ℕ, zero, suc, ◌+◌, ◌-◌, ◌%◌, ◌^◌, ◌≡◌, ◌≢◌, refl, sym, ◌∙◌, ap, Bool, true, false, not, Option,
  none, some, List, [], ◌∷◌, ◌++◌, length, length-append, ◌==◌, if◌then◌else◌, arith,
}
use colm.Links.{Links}
use colm.Links.Chain.{first, last, Chain, Holds}
use mathlib.Core.Path.{subst}
use mathlib.Core.List.{reverse, reverse-cons, append-nil, append_assoc}

-- `generic_iter_t`, as far as the stepping reads it; `kid` is 0 before the first element
pub record GenericIter : Type 0 where
  pub kid : ℕ
  pub yield_size : ℕ
  pub root_size : ℕ

-- `colm_init_list_iter`
unfoldable pub init_list_iter : ℕ → GenericIter
init_list_iter root_size = record { kid = 0; yield_size = 0; root_size = root_size }

-- `ssize` is the size of the stack; the assertion compares `long` values
abbrev pub stack_used : ℕ → GenericIter → ℕ
stack_used ssize iter = (ssize + 2 ^ 64 - iter.root_size) % 2 ^ 64

-- what is common to the functions: from which end they start and along which pointers they go
unfoldable pub advance : ℕ → (ℕ → ℕ) → ℕ → GenericIter → Option (Bool × GenericIter)
advance start step ssize iter =
    let kid' = if iter.kid == 0 then start else step iter.kid in
    if iter.yield_size == stack_used ssize iter
    then some (not (kid' == 0), record iter { kid = kid'; yield_size = stack_used ssize iter })
    else none

unfoldable pub list_iter_advance : Links → ℕ → GenericIter → Option (Bool × GenericIter)
unfolding advance
list_iter_advance d = advance d.head d.next

unfoldable pub rev_list_iter_advance : Links → ℕ → GenericIter → Option (Bool × GenericIter)
unfolding advance
rev_list_iter_advance d = advance d.tail d.prev

unfoldable pub map_iter_advance : Links → ℕ → GenericIter → Option (Bool × GenericIter)
unfolding advance
map_iter_advance d = advance d.head d.next

-- a loop that advances an iterator until it answers false, and collects the elements it stands on
unfoldable pub iterate :
    ℕ → (GenericIter → Option (Bool × GenericIter)) → GenericIter → Option (List ℕ)
iterate zero next iter = none
iterate (suc fuel) next iter = elim (next iter) [
  | none ↦ none
  | some (more, iter') ↦ elim more [
    | false ↦ some []
    | true ↦ elim (iterate fuel next iter') [ none ↦ none | some els ↦ some (iter'.kid ∷ els) ]
  ]
]

ne_zero : (a : ℕ) → a ≢ 0 → (a == 0) ≡ false
ne_zero a h = ground arith

iterate_step :
    (fuel : ℕ) (next : GenericIter → Option (Bool × GenericIter)) (iter iter' : GenericIter)
    (els : List ℕ)
    → next iter ≡ some (true, iter')
    → iterate fuel next iter' ≡ some els
    → iterate (suc fuel) next iter ≡ some (iter'.kid ∷ els)
unfolding iterate
iterate_step fuel next iter iter' els e r = rw (e, iterate, r)

length-reverse : (xs : List ℕ) → length (reverse xs) ≡ length xs
length-reverse [] = refl
length-reverse (x ∷ xs) =
    omega
      (arith, ap length (reverse-cons x xs), length-append (reverse xs) (x ∷ []), length-reverse xs)

reverse-cons_append : (x : ℕ) (xs ys : List ℕ) → reverse (x ∷ xs) ++ ys ≡ reverse xs ++ x ∷ ys
reverse-cons_append x xs ys =
    ap (λ t. t ++ ys) (reverse-cons x xs) ∙ append_assoc (reverse xs) (x ∷ []) ys

-- an iterator that stands on `a`, with nothing on the stack above its root
abbrev on : ℕ → ℕ → GenericIter
on root_size a = record { kid = a; yield_size = 0; root_size = root_size }

module _ (step : ℕ → ℕ) where
  -- from `a` on the pointers lead through `zs` to null
  abbrev Visits : ℕ → List ℕ → Type 0
  Visits a [] = a ≡ 0
  Visits a (z ∷ zs) = (a ≡ z) × (z ≢ 0) × Visits (step z) zs

  module _ (start ssize : ℕ) where
    used_up : (a : ℕ) → stack_used ssize (on ssize a) ≡ 0
    used_up a = omega arith

    -- the element behind `b`, or the first one
    abbrev following : ℕ → ℕ
    following b = if b == 0 then start else step b

    advance-on :
        (b : ℕ)
        → advance start step ssize (on ssize b)
          ≡ some (not (following b == 0), on ssize (following b))
    unfolding advance
    advance-on b = rw (used_up b)

    iterate-Visits :
        (b : ℕ) (zs : List ℕ)
        → Visits (following b) zs
        → iterate (suc (length zs)) (advance start step ssize) (on ssize b) ≡ some zs
    unfolding iterate
    iterate-Visits b [] v = rw (advance-on b, v, iterate) refl
    iterate-Visits b (z ∷ zs) (e, pos, v) =
        let at_z = following_pos z pos in
        let rest = iterate-Visits z zs (subst (λ a. Visits a zs) (sym at_z) v) in
        subst
          (λ a.
            iterate (suc (length (z ∷ zs))) (advance start step ssize) (on ssize b) ≡ some (a ∷ zs))
          e
          (iterate_step (length (z ∷ zs)) (advance start step ssize) (on ssize b)
            (on ssize (following b)) zs (rw (advance-on b, e, ne_zero z pos))
            (subst
              (λ a. iterate (suc (length zs)) (advance start step ssize) (on ssize a) ≡ some zs)
              (sym e) rest))
      where
        following_pos : (a : ℕ) → a ≢ 0 → following a ≡ step a
        following_pos a h = ground arith

module _ (next prev : ℕ → ℕ) where
  forward : (p : ℕ) (xs : List ℕ) → Chain next prev p xs 0 → Visits next (first xs 0) xs
  forward p [] c = refl
  forward p (x ∷ xs) (c0, c1, c2, c3) =
      (refl, c0, subst (λ a. Visits next a xs) (sym c2) (forward x xs c3))

  backward :
      (p : ℕ) (xs : List ℕ) (n : ℕ) (rest : List ℕ)
      → Visits prev p rest
      → Chain next prev p xs n
      → Visits prev (last p xs) (reverse xs ++ rest)
  backward p [] n rest v c = v
  backward p (x ∷ xs) n rest v (c0, c1, c2, c3) =
      let v' = subst (λ a. Visits prev a rest) (sym c1) v in
      subst (Visits prev (last x xs)) (sym (reverse-cons_append x xs rest))
        (backward x xs n (x ∷ rest) (refl, c0, v') c3)

module _ (d : Links) (xs : List ℕ) (ssize : ℕ) (h : Holds d xs) where
  -- A loop that advances a new iterator over a list, with the stack as high at each step as at the
  -- first: the iterators of lists and of maps stand on each element once, in the order of the
  -- list, and the one that goes backwards in the reverse order; then they answer false. This takes
  -- one step more than the list has elements.
  pub iterate-list_iter_advance :
      (iterate (suc (length xs)) (list_iter_advance d ssize) (init_list_iter ssize) ≡ some xs)
      × (iterate (suc (length xs)) (map_iter_advance d ssize) (init_list_iter ssize) ≡ some xs)
      × (iterate (suc (length xs)) (rev_list_iter_advance d ssize) (init_list_iter ssize)
          ≡ some (reverse xs))
  unfolding list_iter_advance map_iter_advance rev_list_iter_advance init_list_iter
  iterate-list_iter_advance =
      let ahead =
        iterate-Visits d.next d.head ssize 0 xs
          (subst (λ a. Visits d.next a xs) (sym h.head_eq) (forward d.next d.prev 0 xs h.chain)) in
      let back = backward d.next d.prev 0 xs 0 [] refl h.chain in
      let start =
        subst (λ a. Visits d.prev a (reverse xs)) (sym h.tail_eq)
          (subst (Visits d.prev (last 0 xs)) (append-nil (reverse xs)) back) in
      let behind = iterate-Visits d.prev d.tail ssize 0 (reverse xs) start in
      (
        ahead,
        ahead,
        subst (λ n. iterate (suc n) (advance d.tail d.prev ssize) (on ssize 0) ≡ some (reverse xs))
            (length-reverse xs) behind,
      )
