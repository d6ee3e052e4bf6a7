-- ===== src/Links/Detach.antt =====
-- src/map.c: an element that is taken out of a linked list.
use colm.Prelude.{ℕ, ◌≡◌, ◌≢◌, refl, sym, ◌∙◌, false, true, List, [], ◌∷◌, ◌++◌, ◌==◌, arith}
use colm.Links.{Links, update, list_detach, skip_forward, skip_reverse}
use colm.Links.Chain.{
  last, has, IsDistinct, Chain, Holds, Chain-append, append-Chain, Chain-update_next,
  Chain-update_prev, Chain-relink_last, Chain-relink_first, last-append,
}
use colm.Links.Sequence.{
  IsDistinct-append, append-IsDistinct, has-last, last-ne-zero, ne_of_has, outside_of_apart,
}

module _ (d : Links) (y : ℕ) where
  detach_only : d.prev y ≡ 0 → d.next y ≡ 0 → list_detach y d ≡ record d { head = 0; tail = 0 }
  unfolding list_detach skip_forward skip_reverse
  detach_only e f = ground arith

  detach_first :
      (z : ℕ)
      → d.prev y ≡ 0
      → d.next y ≡ z
      → z ≢ 0
      → list_detach y d ≡ record d { head = z; prev = update d.prev z 0 }
  unfolding list_detach skip_forward skip_reverse
  detach_first z e f pos = ground arith

  detach_last :
      (l : ℕ)
      → d.prev y ≡ l
      → d.next y ≡ 0
      → l ≢ 0
      → (y == l) ≡ false
      → list_detach y d ≡ record d { tail = l; next = update d.next l 0 }
  unfolding list_detach skip_forward skip_reverse
  detach_last l e f pos apart = ground arith

  detach_inner :
      (l z : ℕ)
      → d.prev y ≡ l
      → d.next y ≡ z
      → l ≢ 0
      → z ≢ 0
      → (y == l) ≡ false
      → list_detach y d ≡ record d { next = update d.next l z; prev = update d.prev z l }
  unfolding list_detach skip_forward skip_reverse
  detach_inner l z e f pos pos' apart = ground arith

  -- the sequence without `y`
  pub list_detach-Holds :
      (xs ys : List ℕ) → Holds d (xs ++ y ∷ ys) → Holds (list_detach y d) (xs ++ ys)
  list_detach-Holds xs ys h =
      let (u, v, apart) = IsDistinct-append xs (y ∷ ys) h.distinct in
      let (c, e) = Chain-append d.next d.prev 0 xs (y ∷ ys) 0 h.chain in go xs ys h u v apart c e
    where
      go :
          (xs ys : List ℕ)
          → Holds d (xs ++ y ∷ ys)
          → IsDistinct xs
          → IsDistinct (y ∷ ys)
          → ((a : ℕ) → has a xs ≡ true → has a (y ∷ ys) ≡ false)
          → Chain d.next d.prev 0 xs y
          → Chain d.next d.prev (last 0 xs) (y ∷ ys) 0
          → Holds (list_detach y d) (xs ++ ys)
      go [] [] h u v apart c e =
          rw (detach_only e.1 e.2)
            (record { head_eq = refl; tail_eq = refl; chain = tt; distinct = tt })
      go [] (z ∷ zs) h u v apart c e = rw (detach_first z e.1 e.2 e.3.0) (record {
        head_eq = refl;
        tail_eq = h.tail_eq;
        chain = Chain-relink_first d.next d.prev 0 y z zs 0 v.1.0 e.3;
        distinct = v.1;
      })
      go (x ∷ ws) [] h u v apart c e =
          let l = last x ws in
          let pos = last-ne-zero d.next d.prev 0 x ws y c in
          let y_off = outside_of_apart y (x ∷ ws) [] apart in
          rw (detach_last l e.1 e.2 pos (ne_of_has y l (x ∷ ws) y_off (has-last x ws))) (record {
            head_eq = h.head_eq;
            tail_eq = sym (last-append 0 (x ∷ ws) []);
            chain =
                append-Chain (update d.next l 0) d.prev 0 (x ∷ ws) [] 0
                  (Chain-relink_last d.next d.prev 0 0 x ws y u c) tt;
            distinct = append-IsDistinct (x ∷ ws) [] u tt (λ a i. refl);
          })
      go (x ∷ ws) (z ∷ zs) h u v apart c e =
          let l = last x ws in
          let pos = last-ne-zero d.next d.prev 0 x ws y c in
          let y_off = outside_of_apart y (x ∷ ws) (z ∷ zs) apart in
          let apart' = λ (a : ℕ) (i : has a (x ∷ ws) ≡ true). rest_apart a (apart a i) in
          let z_off = outside_of_apart z (x ∷ ws) zs apart' in
          let c1 = Chain-relink_last d.next d.prev z 0 x ws y u c in
          let c2 = Chain-update_prev (update d.next l z) d.prev z l 0 (x ∷ ws) z z_off c1 in
          let e1 =
            Chain-update_next d.next d.prev l z y (z ∷ zs) 0 (apart' l (has-last x ws)) e.3 in
          let e2 = Chain-relink_first (update d.next l z) d.prev l y z zs 0 v.1.0 e1 in
          let other = ne_of_has y l (x ∷ ws) y_off (has-last x ws) in
          rw (detach_inner l z e.1 e.2 pos e.3.0 other) (record {
            head_eq = h.head_eq;
            tail_eq =
                h.tail_eq
                ∙ last-append 0 (x ∷ ws) (y ∷ z ∷ zs)
                ∙ sym (last-append 0 (x ∷ ws) (z ∷ zs));
            chain =
                append-Chain (update d.next l z) (update d.prev z l) 0 (x ∷ ws) (z ∷ zs) 0 c2 e2;
            distinct = append-IsDistinct (x ∷ ws) (z ∷ zs) u v.1 apart';
          })
        where
          rest_apart : (a : ℕ) → has a (y ∷ z ∷ zs) ≡ false → has a (z ∷ zs) ≡ false
          rest_apart a o = ground arith
