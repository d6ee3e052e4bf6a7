-- ===== src/Links/After.antt =====
-- src/map.c: insertion behind an element of a linked list.
use colm.Prelude.{ℕ, ◌≡◌, ◌≢◌, refl, sym, ◌∙◌, true, false, List, [], ◌∷◌, ◌++◌, ◌==◌, arith}
use colm.Links.{Links, update, list_add_after, set_reverse}
use colm.Links.Chain.{
  first, last, has, IsDistinct, Chain, Holds, Chain-append, append-Chain, Chain-update_next,
  Chain-update_prev, Chain-relink_first, last-append,
}
use colm.Links.Sequence.{
  IsDistinct-append, has_self, IsDistinct-insert, outside-append, ne_of_has, outside_of_apart,
  eq_flip, update_self, update-other,
}
use mathlib.Core.List.{append_assoc}

module _ (d : Links) (new y : ℕ) (apart : (y == new) ≡ false) (y_pos : y ≢ 0) where
  after_last :
      d.next y ≡ 0
      → list_add_after y new d ≡ record {
        head = d.head;
        tail = new;
        next = update (update d.next new 0) y new;
        prev = update d.prev new y;
      }
  unfolding list_add_after set_reverse
  after_last e = ground arith

  after_inner :
      (z : ℕ)
      → d.next y ≡ z
      → z ≢ 0
      → list_add_after y new d ≡ record {
        head = d.head;
        tail = d.tail;
        next = update (update d.next new z) y new;
        prev = update (update d.prev new y) z new;
      }
  unfolding list_add_after set_reverse
  after_inner z e pos = ground arith

first-cons : (xs ys zs : List ℕ) (y n : ℕ) → first (xs ++ y ∷ ys) n ≡ first (xs ++ y ∷ zs) n
first-cons [] ys zs y n = refl
first-cons (x ∷ xs) ys zs y n = refl

-- a new element behind `y`
IsDistinct-insert_after :
    (new y : ℕ) (xs ys : List ℕ)
    → has new (xs ++ y ∷ ys) ≡ false
    → IsDistinct (xs ++ y ∷ ys)
    → IsDistinct (xs ++ y ∷ new ∷ ys)
IsDistinct-insert_after new y xs ys o u =
    let split = λ (zs : List ℕ). append_assoc xs (y ∷ []) zs in
    rw (← split (new ∷ ys))
      (IsDistinct-insert new (xs ++ y ∷ []) ys (rw (split ys) o) (rw (split ys) u))

module _ (d : Links) (new y : ℕ) (new_pos : new ≢ 0) (xs ys : List ℕ) where
  -- the sequence with a new element behind `y`
  pub list_add_after-Holds :
      has new (xs ++ y ∷ ys) ≡ false
      → Holds d (xs ++ y ∷ ys)
      → Holds (list_add_after y new d) (xs ++ y ∷ new ∷ ys)
  list_add_after-Holds o h =
      let (u, v, apart) = IsDistinct-append xs (y ∷ ys) h.distinct in
      let (c, e) = Chain-append d.next d.prev 0 xs (y ∷ ys) 0 h.chain in go ys o h v apart c e
    where
      go :
          (ws : List ℕ)
          → has new (xs ++ y ∷ ws) ≡ false
          → Holds d (xs ++ y ∷ ws)
          → IsDistinct (y ∷ ws)
          → ((a : ℕ) → has a xs ≡ true → has a (y ∷ ws) ≡ false)
          → Chain d.next d.prev 0 xs y
          → Chain d.next d.prev (last 0 xs) (y ∷ ws) 0
          → Holds (list_add_after y new d) (xs ++ y ∷ new ∷ ws)
      go [] o h v apart c e =
          let (off, away) = outside-append new xs (y ∷ []) o in
          let y_off = outside_of_apart y xs [] apart in
          let next' = update d.next new 0 in
          let other = ne_of_has new y (y ∷ []) away (has_self y []) in
          let other' = eq_flip new y other in
          let c1 = Chain-update_next d.next d.prev new 0 0 xs y off c in
          let c2 = Chain-update_next next' d.prev y new 0 xs y y_off c1 in
          let c3 = Chain-update_prev (update next' y new) d.prev new y 0 xs y off c2 in
          rw (after_last d new y other' e.0 e.2) (record {
            head_eq = h.head_eq ∙ first-cons xs [] (new ∷ []) y 0;
            tail_eq = sym (last-append 0 xs (y ∷ new ∷ []));
            chain =
                append-Chain (update next' y new) (update d.prev new y) 0 xs (y ∷ new ∷ []) 0 c3 (
                  e.0,
                  update-other d.prev new y y other' ∙ e.1,
                  update_self next' y new,
                  (
                    new_pos,
                    update_self d.prev new y,
                    update-other next' y new new other ∙ update_self d.next new 0,
                    tt,
                  ),
                );
            distinct = IsDistinct-insert_after new y xs [] o h.distinct;
          })
      go (z ∷ ws) o h v apart c e =
          let (off, away) = outside-append new xs (y ∷ z ∷ ws) o in
          let away' : has new (z ∷ ws) ≡ false = ground arith in
          let y_off = outside_of_apart y xs (z ∷ ws) apart in
          let z_off : has z xs ≡ false = ground (arith, apart z) in
          let next' = update d.next new z in
          let prev' = update d.prev new y in
          let other = ne_of_has new y (y ∷ z ∷ ws) away (has_self y (z ∷ ws)) in
          let other' = eq_flip new y other in
          let third = ne_of_has new z (z ∷ ws) away' (has_self z ws) in
          let fourth = ne_of_has y z (z ∷ ws) v.0 (has_self z ws) in
          let c1 = Chain-update_next d.next d.prev new z 0 xs y off c in
          let c2 = Chain-update_next next' d.prev y new 0 xs y y_off c1 in
          let c3 = Chain-update_prev (update next' y new) d.prev new y 0 xs y off c2 in
          let c4 = Chain-update_prev (update next' y new) prev' z new 0 xs y z_off c3 in
          let e1 = Chain-update_next d.next d.prev new z y (z ∷ ws) 0 away' e.3 in
          let e2 = Chain-update_next next' d.prev y new y (z ∷ ws) 0 v.0 e1 in
          let e3 = Chain-update_prev (update next' y new) d.prev new y y (z ∷ ws) 0 away' e2 in
          let e4 = Chain-relink_first (update next' y new) prev' new y z ws 0 v.1.0 e3 in
          rw (after_inner d new y other' e.0 z e.2 e.3.0) (record {
            head_eq = h.head_eq ∙ first-cons xs (z ∷ ws) (new ∷ z ∷ ws) y 0;
            tail_eq =
                h.tail_eq
                ∙ last-append 0 xs (y ∷ z ∷ ws)
                ∙ sym (last-append 0 xs (y ∷ new ∷ z ∷ ws));
            chain =
                append-Chain (update next' y new) (update prev' z new) 0 xs (y ∷ new ∷ z ∷ ws) 0 c4
                  (
                    e.0,
                    update-other prev' z new y fourth ∙ update-other d.prev new y y other' ∙ e.1,
                    update_self next' y new,
                    (
                      new_pos,
                      update-other prev' z new new third ∙ update_self d.prev new y,
                      update-other next' y new new other ∙ update_self d.next new z,
                      e4,
                    ),
                  );
            distinct = IsDistinct-insert_after new y xs (z ∷ ws) o h.distinct;
          })
