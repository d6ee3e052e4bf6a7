-- ===== src/Mark/Initial.antt =====
-- `FsmGraph::initialMarkRound` of src/fsmmin.cc marks pairs that are told apart, and leaves pairs that
-- agree.
use Prim.Native.Nat.{Ordering, lt, eq, gt}
use colm.Prelude.{
  ℕ, ◌*◌, ◌^◌, ◌<◌, ◌≡◌, ◌↔◌, ◌⊎◌, inl, inr, refl, sym, ◌∙◌, List, true, false, Option, some, arith,
  length, get_elem?,
}
use colm.Ranges.{IsAscending}
use colm.Fsm.{FsmState}
use colm.Fsm.Equal.{SameInit, init_partition_compare-eq}
use colm.MarkIndex.{MarkIndex, mark_pair, is_pair_marked}
use colm.MarkIndex.Pairs.{new_index, marked, is_pair_marked-new_index}
use colm.MarkIndex.Count.{
  IsIndex, mark_pair-some, marked-IsIndex, marked_own, marked_kept, marked_new, new_index-IsIndex,
}
use colm.Mark.Targets.{HasTargets}
use colm.Mark.Rounds.{initial_mark, initial_mark_round}
use colm.Mark.Run.{SameAt, Told, Told-sym, Told-here}
use colm.Mark.Walk.{IsWalked, walk_pairs-IsWalked}

module _ (state_num : ℕ → ℕ) (states : List FsmState)
    (small : (a : ℕ) → state_num a < length states)
    (ok : (i : ℕ) (s : FsmState)
      → get_elem? states i ≡ some s
      → IsAscending 0 s.out_list × HasTargets s) where
  -- what the initial round leaves unmarked agrees
  abbrev pub SeenInit : MarkIndex → ℕ → ℕ → Type 0
  SeenInit marks i j =
      (is_pair_marked marks i j ≡ some true) ⊎ SameAt (get_elem? states i) (get_elem? states j)

  -- an index in which every marked pair is told apart by a word
  pub record IsSound (marks : MarkIndex) : Type 0 where
    pub index : IsIndex (length states) marks
    pub sound :
        (i j : ℕ)
        → i < length states
        → j < length states
        → is_pair_marked marks i j ≡ some true
        → Told state_num states i j

  new_index-IsSound : length states * length states < 2 ^ 31 → IsSound (new_index (length states))
  new_index-IsSound room = record {
    index = new_index-IsIndex (length states) room;
    sound = λ i j li lj m.
        let x : some true ≡ some false =
          sym m ∙ (is_pair_marked-new_index (length states) i j room li lj).1 in
        absurd cc;
  }

  -- marking a pair that is told apart
  pub marked-IsSound :
      (pn qn : ℕ) (marks : MarkIndex)
      → pn < length states
      → qn < length states
      → IsSound marks
      → Told state_num states pn qn
      → IsSound (marked pn qn marks)
  marked-IsSound pn qn marks lp lq is told = record {
    index = marked-IsIndex (length states) marks is.index pn qn;
    sound = λ i j li lj m.
        elim (marked_new (length states) marks pn qn i j is.index lp lq li lj m) [
          | inl (inl same) ↦ rw (same.0, same.1) told
          | inl (inr flipped) ↦ rw (flipped.0, flipped.1) (Told-sym state_num states pn qn told)
          | inr before ↦ is.sound i j li lj before
        ];
  }

  initial_mark-IsWalked :
      (p q : FsmState) (pn qn : ℕ) (st : MarkIndex)
      → get_elem? states pn ≡ some p
      → get_elem? states qn ≡ some q
      → qn < pn
      → pn < length states
      → IsSound st
      → IsWalked initial_mark states IsSound SeenInit st
          (initial_mark p pn q qn st)
          (λ i j. (i ≡ pn) × (j ≡ qn))
  unfolding initial_mark
  initial_mark-IsWalked p q pn qn st atp atq lq lp is =
      let (r, ends, iff) = init_partition_compare-eq p q (ok pn p atp).0 (ok qn q atq).0 in
      rw (ends, initial_mark) (by_answer r iff)
    where
      mark_it :
          ¬ SameInit p q
          → IsWalked initial_mark states IsSound SeenInit st
              (mark_pair pn qn st)
              (λ i j. (i ≡ pn) × (j ≡ qn))
      mark_it differ = record {
        after = marked pn qn st;
        ends = mark_pair-some (length states) st is.index pn qn lp (omega (arith, lq, lp));
        inv =
            marked-IsSound pn qn st lp (omega (arith, lq, lp)) is
              (Told-here state_num states pn qn p q atp atq differ);
        seen = λ i j now. inl (
            rw (now.0, now.1)
              (marked_own (length states) st is.index pn qn lp (omega (arith, lq, lp))));
        keeps = λ i j s. elim s [ inl m ↦ inl (marked_kept st pn qn i j m) | inr a ↦ inr a ];
      }

      by_answer :
          (r : Ordering)
          → (r ≡ eq) ↔ SameInit p q
          → IsWalked initial_mark states IsSound SeenInit st
              (elim r [ eq ↦ some st | lt ↦ mark_pair pn qn st | gt ↦ mark_pair pn qn st ])
              (λ i j. (i ≡ pn) × (j ≡ qn))
      by_answer eq iff = record {
        after = st;
        ends = refl;
        inv = is;
        seen = λ i j now. inr (rw (now.0, now.1, atp, atq) (iff.0 refl));
        keeps = λ i j s. s;
      }
      by_answer lt iff = mark_it (λ h. let e : lt ≡ eq = iff.1 h in cc)
      by_answer gt iff = mark_it (λ h. let e : gt ≡ eq = iff.1 h in cc)

  -- the initial round
  pub record IsInitial (o : Option MarkIndex) : Type 0 where
    pub after : MarkIndex
    pub ends : o ≡ some after
    pub is_sound : IsSound after
    pub seen : (i j : ℕ) → i < length states → j < i → SeenInit after i j

  pub initial_mark_round-IsInitial :
      length states * length states < 2 ^ 31
      → IsInitial (initial_mark_round states (new_index (length states)))
  unfolding initial_mark_round
  initial_mark_round-IsInitial room =
      let r =
        walk_pairs-IsWalked initial_mark states IsSound SeenInit initial_mark-IsWalked
          (new_index (length states)) (new_index-IsSound room) in
      record {
        after = r.after;
        ends = r.ends;
        is_sound = r.inv;
        seen = λ i j a b. r.seen i j (a, b);
      }
