-- ===== src/Links/Before.antt =====
-- src/map.c: insertion in front of an element of a linked list.
use colm.Prelude.{ℕ, ◌≡◌, ◌≢◌, refl, sym, ◌∙◌, true, false, List, [], ◌∷◌, ◌++◌, ◌==◌, arith}
use colm.Links.{Links, update, list_add_before, set_forward}
use colm.Links.Chain.{
  last, has, IsDistinct, Chain, Holds, Chain-append, append-Chain, Chain-update_next,
  Chain-update_prev, Chain-relink_last, Chain-relink_first,
}
use colm.Links.Sequence.{
  IsDistinct-append, has-last, has_self, last-ne-zero, IsDistinct-insert, outside-append, ne_of_has,
  outside_of_apart, eq_flip, update_self, update-other, last-insert,
}

module _ (d : Links) (new y : ℕ) (apart : (y == new) ≡ false) (y_pos : y ≢ 0) where
  before_first :
      d.prev y ≡ 0
      → list_add_before y new d ≡ record {
        head = new;
        tail = d.tail;
        next = update d.next new y;
        prev = update (update d.prev new 0) y new;
      }
  unfolding list_add_before set_forward
  before_first e = ground arith

  before_inner :
      (l : ℕ)
      → d.prev y ≡ l
      → l ≢ 0
      → list_add_before y new d ≡ record {
        head = d.head;
        tail = d.tail;
        next = update (update d.next new y) l new;
        prev = update (update d.prev new l) y new;
      }
  unfolding list_add_before set_forward
  before_inner l e pos = ground arith

module _ (d : Links) (new y : ℕ) (new_pos : new ≢ 0) (xs ys : List ℕ) where
  -- the sequence with a new element in front of `y`
  pub list_add_before-Holds :
      has new (xs ++ y ∷ ys) ≡ false
      → Holds d (xs ++ y ∷ ys)
      → Holds (list_add_before y new d) (xs ++ new ∷ y ∷ ys)
  list_add_before-Holds o h =
      let (u, v, apart) = IsDistinct-append xs (y ∷ ys) h.distinct in
      let (c, e) = Chain-append d.next d.prev 0 xs (y ∷ ys) 0 h.chain in go xs o h u apart c e
    where
      go :
          (ws : List ℕ)
          → has new (ws ++ y ∷ ys) ≡ false
          → Holds d (ws ++ y ∷ ys)
          → IsDistinct ws
          → ((a : ℕ) → has a ws ≡ true → has a (y ∷ ys) ≡ false)
          → Chain d.next d.prev 0 ws y
          → Chain d.next d.prev (last 0 ws) (y ∷ ys) 0
          → Holds (list_add_before y new d) (ws ++ new ∷ y ∷ ys)
      go [] o h u apart c e =
          let next' = update d.next new y in
          let prev' = update d.prev new 0 in
          let e1 = Chain-update_next d.next d.prev new y 0 (y ∷ ys) 0 o e in
          let e2 = Chain-update_prev next' d.prev new 0 0 (y ∷ ys) 0 o e1 in
          let e3 = Chain-relink_first next' prev' new 0 y ys 0 h.distinct.0 e2 in
          let other = ne_of_has new y (y ∷ ys) o (has_self y ys) in
          rw (before_first d new y (eq_flip new y other) e.0 e.1) (record {
            head_eq = refl;
            tail_eq = h.tail_eq;
            chain = (
              new_pos,
              update-other prev' y new new other ∙ update_self d.prev new 0,
              update_self d.next new y,
              e3,
            );
            distinct = (o, h.distinct);
          })
      go (x ∷ ws) o h u apart c e =
          let l = last x ws in
          let (off, away) = outside-append new (x ∷ ws) (y ∷ ys) o in
          let outside : has l (y ∷ ys) ≡ false = apart l (has-last x ws) in
          let pos = last-ne-zero d.next d.prev 0 x ws y c in
          let next' = update d.next new y in
          let prev' = update d.prev new l in
          let prev'' = update prev' y new in
          let y_off = outside_of_apart y (x ∷ ws) ys apart in
          let e1 = Chain-update_next d.next d.prev new y l (y ∷ ys) 0 away e in
          let e2 = Chain-update_prev next' d.prev new l l (y ∷ ys) 0 away e1 in
          let v = (IsDistinct-append (x ∷ ws) (y ∷ ys) h.distinct).1 in
          let e3 = Chain-relink_first next' prev' new l y ys 0 v.0 e2 in
          let e4 = Chain-update_next next' prev'' l new new (y ∷ ys) 0 outside e3 in
          let c1 = Chain-update_next d.next d.prev new y 0 (x ∷ ws) y off c in
          let c2 = Chain-update_prev next' d.prev new l 0 (x ∷ ws) y off c1 in
          let c3 = Chain-update_prev next' prev' y new 0 (x ∷ ws) y y_off c2 in
          let c4 = Chain-relink_last next' prev'' new 0 x ws y u c3 in
          let other = ne_of_has new y (y ∷ ys) away (has_self y ys) in
          let other' = ne_of_has new l (x ∷ ws) off (has-last x ws) in
          rw (before_inner d new y (eq_flip new y other) e.0 l e.1 pos) (record {
            head_eq = h.head_eq;
            tail_eq = h.tail_eq ∙ sym (last-insert 0 new y (x ∷ ws) ys);
            chain = append-Chain (update next' l new) prev'' 0 (x ∷ ws) (new ∷ y ∷ ys) 0 c4 (
              new_pos,
              update-other prev' y new new other ∙ update_self d.prev new l,
              update-other next' l new new other' ∙ update_self d.next new y,
              e4,
            );
            distinct = IsDistinct-insert new (x ∷ ws) (y ∷ ys) o h.distinct;
          })
