-- ===== src/ColmList/Ends.antt =====
-- The operations at the two ends of a linked list.
use colm.Prelude.{ℕ, ◌≡◌, ◌≢◌, refl, sym, ◌∙◌, ap, false, List, [], ◌∷◌, ◌++◌}
use colm.Links.{
  Links, update, list_add_after, list_add_before, list_detach, set_forward, set_reverse,
}
use colm.Links.Chain.{last, has, Holds, last-append}
use colm.Links.Before.{list_add_before-Holds}
use colm.Links.After.{list_add_after-Holds}
use colm.Links.Detach.{list_detach-Holds}
use colm.Links.Sequence.{update_self}
use mathlib.Core.Path.{subst, subst₂}
use mathlib.Core.List.{append-nil, append_assoc}

-- a list that is not empty, from its end
pub snoc_cases : (x : ℕ) (xs : List ℕ) → (ys : List ℕ) × (x ∷ xs ≡ ys ++ last x xs ∷ [])
snoc_cases x [] = ([], refl)
snoc_cases x (y ∷ xs) = let (ys, e) = snoc_cases y xs in (x ∷ ys, ap (λ t. x ∷ t) e)

module _ (d : Links) (new : ℕ) (new_pos : new ≢ 0) where
  before_null :
      list_add_before 0 new d
      ≡ set_forward new
          (record d { tail = new; next = update d.next new 0; prev = update d.prev new d.tail })
  unfolding list_add_before
  before_null = refl

  after_null :
      list_add_after 0 new d
      ≡ set_reverse new
          (record d { head = new; next = update d.next new d.head; prev = update d.prev new 0 })
  unfolding list_add_after
  after_null = refl

  into_empty_before : d.tail ≡ 0 → Holds (list_add_before 0 new d) (new ∷ [])
  unfolding set_forward
  into_empty_before e =
      rw (before_null, e, update_self d.prev new 0)
        (record {
          head_eq = refl;
          tail_eq = refl;
          chain = (new_pos, update_self d.prev new 0, update_self d.next new 0, tt);
          distinct = (refl, tt);
        })

  into_empty_after : d.head ≡ 0 → Holds (list_add_after 0 new d) (new ∷ [])
  unfolding set_reverse
  into_empty_after e =
      rw (after_null, e, update_self d.next new 0)
        (record {
          head_eq = refl;
          tail_eq = refl;
          chain = (new_pos, update_self d.prev new 0, update_self d.next new 0, tt);
          distinct = (refl, tt);
        })

  pub add_before_head :
      (xs : List ℕ)
      → has new xs ≡ false
      → Holds d xs
      → Holds (list_add_before d.head new d) (new ∷ xs)
  add_before_head [] o h =
      subst (λ a. Holds (list_add_before a new d) (new ∷ [])) (sym h.head_eq)
        (into_empty_before h.tail_eq)
  add_before_head (x ∷ xs) o h =
      subst (λ a. Holds (list_add_before a new d) (new ∷ x ∷ xs)) (sym h.head_eq)
        (list_add_before-Holds d new x new_pos [] xs o h)

  pub add_after_tail :
      (xs : List ℕ)
      → has new xs ≡ false
      → Holds d xs
      → Holds (list_add_after d.tail new d) (xs ++ new ∷ [])
  add_after_tail [] o h =
      subst (λ a. Holds (list_add_after a new d) (new ∷ [])) (sym h.tail_eq)
        (into_empty_after h.head_eq)
  add_after_tail (x ∷ xs) o h =
      let (ys, e) = snoc_cases x xs in
      let l = last x xs in
      let o' = subst (λ zs. has new zs ≡ false) e o in
      let made = list_add_after-Holds d new l new_pos ys [] o' (subst (Holds d) e h) in
      subst₂ (λ a zs. Holds (list_add_after a new d) zs) (sym h.tail_eq)
        (sym (append_assoc ys (l ∷ []) (new ∷ [])) ∙ ap (λ zs. zs ++ new ∷ []) (sym e)) made

module _ (d : Links) where
  pub detach_head : (x : ℕ) (xs : List ℕ) → Holds d (x ∷ xs) → Holds (list_detach d.head d) xs
  detach_head x xs h =
      subst (λ a. Holds (list_detach a d) xs) (sym h.head_eq) (list_detach-Holds d x [] xs h)

  pub detach_tail : (xs : List ℕ) (x : ℕ) → Holds d (xs ++ x ∷ []) → Holds (list_detach d.tail d) xs
  detach_tail xs x h =
      subst₂ (λ a zs. Holds (list_detach a d) zs) (sym (h.tail_eq ∙ last-append 0 xs (x ∷ [])))
        (append-nil xs) (list_detach-Holds d x xs [] h)
