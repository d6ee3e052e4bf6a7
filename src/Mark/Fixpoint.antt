-- ===== src/Mark/Fixpoint.antt =====
-- A round of `FsmGraph::markRound` of src/fsmmin.cc marks pairs that are told apart, and notes it.
use colm.Prelude.{
  ℕ, ◌<◌, ◌≡◌, ◌≢◌, ◌↔◌, ◌⊎◌, inl, inr, refl, sym, ap, ◌∙◌, List, Bool, true, false, Option, none,
  some, if◌then◌else◌, arith, length, get_elem?,
}
use mathlib.Core.Path.{subst}
use colm.Ranges.{lookup, IsAscending}
use colm.Fsm.{FsmTrans, FsmState}
use colm.Fsm.Compare.{returned}
use colm.Fsm.Equal.{SameDataPtr, SameInit}
use colm.Fsm.Partition.{SameKeys}
use colm.MarkIndex.{MarkIndex, is_pair_marked}
use colm.MarkIndex.Pairs.{marked}
use colm.MarkIndex.Count.{falses, is_pair_marked_lt, mark_pair-some, marked_kept, falses-marked}
use colm.Mark.{should_mark}
use colm.Mark.Targets.{HasTargets, MarkedTargets, should_mark-MarkedTargets}
use colm.Mark.Rounds.{mark_answer, mark_step}
use colm.Mark.Run.{SameAt, Told, Told-further}
use colm.Mark.Walk.{IsWalked}
use colm.Mark.Initial.{IsSound, SeenInit, marked-IsSound}

pub SameDataPtr-none : (a b : Option FsmTrans) → SameDataPtr a b → (a ≡ none) ↔ (b ≡ none)
SameDataPtr-none none none h = (λ e. refl, λ e. refl)
SameDataPtr-none (some t) (some u) h = (λ e. cc, λ e. cc)
SameDataPtr-none none (some u) h = absurd h
SameDataPtr-none (some t) none h = absurd h

module _ (state_num : ℕ → ℕ) (states : List FsmState)
    (small : (a : ℕ) → state_num a < length states)
    (ok : (i : ℕ) (s : FsmState)
      → get_elem? states i ≡ some s
      → IsAscending 0 s.out_list × HasTargets s) where
  -- `shouldMark` does not mark the pair
  abbrev pub Unmoved : MarkIndex → Option FsmState → Option FsmState → Type 0
  Unmoved marks none _ = ⊥
  Unmoved marks (some s) none = ⊥
  Unmoved marks (some s) (some t) = should_mark state_num marks s t ≡ some (returned false)

  abbrev pub Settled : MarkIndex → ℕ → ℕ → Type 0
  Settled marks i j =
      (is_pair_marked marks i j ≡ some true)
      ⊎ Unmoved marks (get_elem? states i) (get_elem? states j)

  -- how a round stands to the index `start` at its begin
  abbrev pub Progress : MarkIndex → MarkIndex × Bool → Type 0
  Progress start st =
      ((st.1 ≡ false) × (st.0 ≡ start)) ⊎ ((st.1 ≡ true) × (falses st.0.array < falses start.array))

  abbrev pub Inv : MarkIndex → MarkIndex × Bool → Type 0
  Inv start st =
      IsSound state_num states small ok st.0
      × ((i j : ℕ) → i < length states → j < i → SeenInit state_num states small ok st.0 i j)
      × Progress start st

  abbrev pub Seen : MarkIndex × Bool → ℕ → ℕ → Type 0
  Seen st i j = (st.1 ≡ true) ⊎ Settled st.0 i j

  module _ (start : MarkIndex) (p q : FsmState) (pn qn : ℕ) (st : MarkIndex × Bool)
      (atp : get_elem? states pn ≡ some p) (atq : get_elem? states qn ≡ some q) (lq : qn < pn)
      (lp : pn < length states) (inv : Inv start st) where
    abbrev pub Stepped : Option (MarkIndex × Bool) → Type 0
    Stepped o =
        IsWalked (mark_step state_num) states (Inv start) Seen st o (λ i j. (i ≡ pn) × (j ≡ qn))

    left_alone : Settled st.0 pn qn → Stepped (some st)
    left_alone s = record {
      after = st;
      ends = refl;
      inv = inv;
      seen = λ i j now. inr (rw (now.0, now.1) s);
      keeps = λ i j s. s;
    }

    marks_it :
        is_pair_marked st.0 pn qn ≡ some false
        → Told state_num states pn qn
        → Stepped (mark_answer state_num pn qn st (returned true))
    marks_it clear told =
        let fewer =
          falses-marked (length states) st.0 inv.0.index pn qn lp (omega (arith, lq, lp)) clear in
        record {
          after = (marked pn qn st.0, true);
          ends =
              rw
                (
                  mark_answer,
                  mark_pair-some (length states) st.0 inv.0.index pn qn lp (omega (arith, lq, lp)),
                )
                refl;
          inv = (
            marked-IsSound state_num states small ok pn qn st.0 lp (omega (arith, lq, lp)) inv.0
                told,
            λ i j a b. elim (inv.1 i j a b) [
              | inl m ↦ inl (marked_kept st.0 pn qn i j m)
              | inr same ↦ inr same
            ],
            inr (
              refl,
              elim inv.2 [
                | inl same ↦ omega (arith, fewer, ap (λ (m : MarkIndex). falses m.array) same.1)
                | inr less ↦ omega (arith, fewer, less.1)
              ],
            ),
          );
          seen = λ i j now. inl refl;
          keeps = λ i j s. inl refl;
        }

    keys_agree : SameAt (get_elem? states pn) (get_elem? states qn) → SameKeys p q
    keys_agree same k =
        let s : SameInit p q =
          subst (λ o. SameAt (some p) o) atq
            (subst (λ o. SameAt o (get_elem? states qn)) atp same) in
        SameDataPtr-none (lookup k p.out_list) (lookup k q.out_list) (s.1 k)

    read : (i j : ℕ) → is_pair_marked st.0 (state_num i) (state_num j) ≢ none
    read i j e =
        let (b, e') =
          is_pair_marked_lt (length states) st.0 inv.0.index (state_num i) (state_num j) (small i)
            (small j) in
        cc

    MarkedTargets-Told :
        (k : ℕ) (a b : Option FsmTrans)
        → lookup k p.out_list ≡ a
        → lookup k q.out_list ≡ b
        → MarkedTargets state_num st.0 a b
        → Told state_num states pn qn
    MarkedTargets-Told k none b at_a at_b m = absurd m
    MarkedTargets-Told k (some t) none at_a at_b m = absurd m
    MarkedTargets-Told k (some t) (some u) at_a at_b m =
        Told-further state_num states pn qn k p q t u atp atq at_a at_b (
          inv.0.sound (state_num t.to_state) (state_num u.to_state) (small t.to_state)
            (small u.to_state) m)

    unmarked-Stepped :
        is_pair_marked st.0 pn qn ≡ some false
        → SameAt (get_elem? states pn) (get_elem? states qn)
        → Stepped (elim (should_mark state_num st.0 p q) [
          | none ↦ none
          | some o ↦ mark_answer state_num pn qn st o
        ])
    unmarked-Stepped clear same =
        elim (should_mark-MarkedTargets state_num st.0 p q (ok pn p atp).0 (ok qn q atq).0
          (keys_agree same) (ok pn p atp).1 (ok qn q atq).1 read) [
            | inl (e, none_marked) ↦ rw e (left_alone (inr (rw (atp, atq) e)))
            | inr (e, (k, found)) ↦ rw e (
                marks_it clear (
                  MarkedTargets-Told k (lookup k p.out_list) (lookup k q.out_list) refl refl found))
          ]

    pub mark_step-Stepped : Stepped (mark_step state_num p pn q qn st)
    unfolding mark_step
    mark_step-Stepped =
        let (b, e) =
          is_pair_marked_lt (length states) st.0 inv.0.index pn qn lp (omega (arith, lq, lp)) in
        rw (e, mark_step) (by_mark b e)
      where
        by_mark :
            (b : Bool)
            → is_pair_marked st.0 pn qn ≡ some b
            → Stepped (
                if b then some st else elim (should_mark state_num st.0 p q) [
                  | none ↦ none
                  | some o ↦ mark_answer state_num pn qn st o
                ])
        by_mark true e = left_alone (inl e)
        by_mark false e = elim (inv.1 pn qn lp lq) [
          | inl m ↦ let x : some true ≡ some false = sym m ∙ e in cc
          | inr same ↦ unmarked-Stepped e same
        ]
