-- ===== src/Mark/Walk.antt =====
-- The walk of the rounds of src/fsmmin.cc comes to every pair of states.
use colm.Prelude.{
  ℕ, suc, ◌+◌, ◌≤◌, ◌<◌, ◌≡◌, ◌⊎◌, inl, inr, refl, sym, ap, ◌∙◌, List, [], ◌∷◌, ◌++◌, Option, some,
  arith, length, length-append, get_elem?,
}
use mathlib.Core.List.{append_assoc, append-nil}
use colm.Fsm.{FsmState}
use colm.Mark.Rounds.{walk_row, walk_pairs}

get_elem?-append :
    (xs ys : List FsmState) (y : FsmState) → get_elem? (xs ++ y ∷ ys) (length xs) ≡ some y
get_elem?-append [] ys y = refl
get_elem?-append (x ∷ xs) ys y = get_elem?-append xs ys y

module _ {St : Type 0} (body : FsmState → ℕ → FsmState → ℕ → St → Option St)
    (states : List FsmState) (Inv : St → Type 0) (Seen : St → ℕ → ℕ → Type 0) where
  -- what a state of the loop leads to, at which the pairs of `Now` are seen
  pub record IsWalked (st : St) (o : Option St) (Now : ℕ → ℕ → Type 0) : Type 0 where
    pub after : St
    pub ends : o ≡ some after
    pub inv : Inv after
    pub seen : (i j : ℕ) → Now i j → Seen after i j
    pub keeps : (i j : ℕ) → Seen st i j → Seen after i j

  -- a round keeps the invariant, sees its pair, and forgets none
  abbrev pub IsBody : Type 0
  IsBody =
      (p q : FsmState) (pn qn : ℕ) (st : St)
      → get_elem? states pn ≡ some p
      → get_elem? states qn ≡ some q
      → qn < pn
      → pn < length states
      → Inv st
      → IsWalked st (body p pn q qn st) (λ i j. (i ≡ pn) × (j ≡ qn))

  module _ (is_body : IsBody) where
    walk_row-IsWalked :
        (p : FsmState) (done rest behind : List FsmState) (qn pn : ℕ) (st : St)
        → get_elem? states pn ≡ some p
        → pn < length states
        → states ≡ done ++ (rest ++ behind)
        → qn ≡ length done
        → qn + length rest ≡ pn
        → Inv st
        → IsWalked st (walk_row body p pn rest qn st) (λ i j. (i ≡ pn) × (qn ≤ j) × (j < pn))
    unfolding walk_row
    walk_row-IsWalked p done [] behind qn pn st at lt whole start end inv = record {
      after = st;
      ends = refl;
      inv = inv;
      seen = λ i j now. absurd (omega (arith, now.1, now.2, end));
      keeps = λ i j s. s;
    }
    walk_row-IsWalked p done (q ∷ qs) behind qn pn st at lt whole start end inv =
        let at_q : get_elem? states qn ≡ some q =
          ap (λ i. get_elem? states i) start
          ∙ ap (λ xs. get_elem? xs (length done)) whole
          ∙ get_elem?-append done (qs ++ behind) q in
        let b = is_body p q pn qn st at at_q (omega (arith, end)) lt inv in
        let r =
          walk_row-IsWalked p (done ++ q ∷ []) qs behind (suc qn) pn b.after at lt
            (whole ∙ sym (append_assoc done (q ∷ []) (qs ++ behind)))
            (omega (arith, start, length-append done (q ∷ []))) (omega (arith, end)) b.inv in
        record {
          after = r.after;
          ends = rw (b.ends, walk_row) r.ends;
          inv = r.inv;
          seen = λ i j now. elim (first j qn now.1) [
            | inl e ↦ r.keeps i j (b.seen i j (now.0, e))
            | inr more ↦ r.seen i j (now.0, more, now.2)
          ];
          keeps = λ i j s. r.keeps i j (b.keeps i j s);
        }
      where
        first : (j qn : ℕ) → qn ≤ j → (j ≡ qn) ⊎ (suc qn ≤ j)
        first j qn le = ground arith

    walk_rest-IsWalked :
        (before rest : List FsmState) (st : St)
        → states ≡ before ++ rest
        → Inv st
        → IsWalked st
            (walk_pairs body before rest st)
            (λ i j. (length before ≤ i) × (i < length states) × (j < i))
    unfolding walk_pairs
    walk_rest-IsWalked before [] st whole inv =
        let len : length states ≡ length before = ap length whole ∙ ap length (append-nil before) in
        record {
          after = st;
          ends = refl;
          inv = inv;
          seen = λ i j now. absurd (omega (arith, now.0, now.1, len));
          keeps = λ i j s. s;
        }
    walk_rest-IsWalked before (p ∷ rest) st whole inv =
        let n : ℕ = length before in
        let len : length states ≡ n + suc (length rest) =
          ap length whole ∙ length-append before (p ∷ rest) in
        let at : get_elem? states n ≡ some p =
          ap (λ xs. get_elem? xs n) whole ∙ get_elem?-append before rest p in
        let b =
          walk_row-IsWalked p [] before (p ∷ rest) 0 n st at (omega (arith, len)) whole refl
            (omega arith) inv in
        let r =
          walk_rest-IsWalked (before ++ p ∷ []) rest b.after
            (whole ∙ sym (append_assoc before (p ∷ []) rest)) b.inv in
        record {
          after = r.after;
          ends = rw (b.ends, walk_pairs) r.ends;
          inv = r.inv;
          seen = λ i j now. elim (first i n now.0) [
            | inl e ↦ r.keeps i j (b.seen i j (e, omega arith, omega (arith, now.2, e)))
            | inr more ↦
                r.seen i j (omega (arith, more, length-append before (p ∷ [])), now.1, now.2)
          ];
          keeps = λ i j s. r.keeps i j (b.keeps i j s);
        }
      where
        first : (i n : ℕ) → n ≤ i → (i ≡ n) ⊎ (suc n ≤ i)
        first i n le = ground arith

    -- the whole walk
    pub walk_pairs-IsWalked :
        (st : St)
        → Inv st
        → IsWalked st (walk_pairs body [] states st) (λ i j. (i < length states) × (j < i))
    walk_pairs-IsWalked st inv =
        let r = walk_rest-IsWalked [] states st refl inv in
        record {
          after = r.after;
          ends = r.ends;
          inv = r.inv;
          seen = λ i j now. r.seen i j (omega arith, now.0, now.1);
          keeps = r.keeps;
        }
