-- ===== src/Mark/Minimize.antt =====
-- The loop of `FsmGraph::minimizeStable` of src/fsmmin.cc ends, and no input tells the states of an
-- unmarked pair apart.
use colm.Prelude.{
  ℕ, zero, suc, ◌*◌, ◌^◌, ◌<◌, ◌≡◌, inl, inr, refl, sym, ap, ◌∙◌, List, Bool, true, false, Option,
  some, arith, length, get_elem?, Bool-cases,
}
use colm.Ranges.{IsAscending}
use colm.Fsm.{FsmState}
use colm.MarkIndex.{MarkIndex}
use colm.MarkIndex.Pairs.{mark_index-some}
use colm.MarkIndex.Count.{IsIndex, falses, falses_le}
use colm.Mark.Targets.{HasTargets}
use colm.Mark.Rounds.{mark_step, mark_round, mark_rounds, minimize_marks}
use colm.Mark.Walk.{walk_pairs-IsWalked}
use colm.Mark.Initial.{IsSound, SeenInit, initial_mark_round-IsInitial}
use colm.Mark.Fixpoint.{Settled, Inv, Seen, mark_step-Stepped}

module _ (state_num : ℕ → ℕ) (states : List FsmState)
    (small : (a : ℕ) → state_num a < length states)
    (ok : (i : ℕ) (s : FsmState)
      → get_elem? states i ≡ some s
      → IsAscending 0 s.out_list × HasTargets s) where
  -- what a round leaves
  record IsRound (start : MarkIndex) (o : Option (MarkIndex × Bool)) : Type 0 where
    after : MarkIndex × Bool
    ends : o ≡ some after
    inv : Inv state_num states small ok start after
    seen : (i j : ℕ) → i < length states → j < i → Seen state_num states small ok after i j

  mark_round-IsRound :
      (start : MarkIndex)
      → IsSound state_num states small ok start
      → ((i j : ℕ) → i < length states → j < i → SeenInit state_num states small ok start i j)
      → IsRound start (mark_round state_num states start)
  unfolding mark_round
  mark_round-IsRound start is seen =
      let r =
        walk_pairs-IsWalked (mark_step state_num) states (Inv state_num states small ok start)
          (Seen state_num states small ok)
          (λ p q pn qn st atp atq lq lp inv.
            mark_step-Stepped state_num states small ok start p q pn qn st atp atq lq lp inv)
          (start, false) (is, seen, inl (refl, refl)) in
      record { after = r.after; ends = r.ends; inv = r.inv; seen = λ i j a b. r.seen i j (a, b) }

  -- what the rounds leave in the end
  pub record IsFinal (o : Option MarkIndex) : Type 0 where
    pub after : MarkIndex
    pub ends : o ≡ some after
    pub is_sound : IsSound state_num states small ok after
    pub seen : (i j : ℕ) → i < length states → j < i → SeenInit state_num states small ok after i j
    pub settled :
        (i j : ℕ) → i < length states → j < i → Settled state_num states small ok after i j

  mark_rounds-IsFinal :
      (f : ℕ) (start : MarkIndex)
      → falses start.array < f
      → IsSound state_num states small ok start
      → ((i j : ℕ) → i < length states → j < i → SeenInit state_num states small ok start i j)
      → IsFinal (mark_rounds state_num f states start)
  unfolding mark_rounds
  mark_rounds-IsFinal zero start enough is seen = absurd (omega arith)
  mark_rounds-IsFinal (suc f) start enough is seen =
      let r = mark_round-IsRound start is seen in
      elim (Bool-cases r.after.1) [
        | inl modified ↦
            let fewer : falses r.after.0.array < falses start.array = elim r.inv.2 [
              | inl same ↦ let e : true ≡ false = sym modified ∙ same.0 in absurd cc
              | inr less ↦ less.1
            ] in
            let g = mark_rounds-IsFinal f r.after.0 (omega (arith, fewer)) r.inv.0 r.inv.1 in
            record {
              after = g.after;
              ends = rw (r.ends, modified, mark_rounds) g.ends;
              is_sound = g.is_sound;
              seen = g.seen;
              settled = g.settled;
            }
        | inr stable ↦ record {
          after = r.after.0;
          ends = rw (r.ends, stable, mark_rounds) refl;
          is_sound = r.inv.0;
          seen = r.inv.1;
          settled = λ i j a b. elim (r.seen i j a b) [
            | inl modified ↦ let e : true ≡ false = sym modified ∙ stable in absurd cc
            | inr s ↦ s
          ];
        }
      ]

  pub minimize_marks-IsFinal :
      length states * length states < 2 ^ 31 → IsFinal (minimize_marks state_num states)
  unfolding minimize_marks
  minimize_marks-IsFinal room =
      let r = initial_mark_round-IsInitial state_num states small ok room in
      let n : ℕ = length states in
      let g =
        mark_rounds-IsFinal (suc (n * n)) r.after (enough r.after n r.is_sound.index) r.is_sound
          r.seen in
      record {
        after = g.after;
        ends = rw (mark_index-some n room, r.ends, minimize_marks) g.ends;
        is_sound = g.is_sound;
        seen = g.seen;
        settled = g.settled;
      }
    where
      enough : (m : MarkIndex) (n : ℕ) → IsIndex n m → falses m.array < suc (n * n)
      enough m n is =
          let le = falses_le m.array in
          let sq = is.square ∙ ap (λ k. k * k) is.num_eq in omega (arith, le, sq)
