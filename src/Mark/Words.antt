-- ===== src/Mark/Words.antt =====
-- No input tells the states apart that the rounds of src/fsmmin.cc leave unmarked.
use colm.Prelude.{
  ℕ, ◌*◌, ◌^◌, ◌<◌, ◌≡◌, ◌≢◌, ◌⊎◌, inl, inr, refl, sym, ap, ◌∙◌, List, [], ◌∷◌, true, false, Option,
  none, some, arith, length, get_elem?, Bool-cases,
}
use colm.Ranges.{lookup, IsAscending}
use colm.Fsm.{FsmTrans, FsmState}
use colm.Fsm.Compare.{returned}
use colm.Fsm.Equal.{SameDataPtr}
use colm.MarkIndex.{MarkIndex, is_pair_marked}
use colm.MarkIndex.Count.{IsIndex, is_pair_marked_lt, is_pair_marked_comm}
use colm.Mark.Targets.{HasTargets, MarkedTargets, should_mark-MarkedTargets}
use colm.Mark.Rounds.{minimize_marks}
use colm.Mark.Run.{
  SameAt, SameAt-refl, SameAt-sym, trans_on, target, after_word, after_word-none, Told, Indistinct,
}
use colm.Mark.Fixpoint.{SameDataPtr-none, Unmoved}
use colm.Mark.Minimize.{IsFinal, minimize_marks-IsFinal}

module _ (state_num : ℕ → ℕ) (states : List FsmState)
    (small : (a : ℕ) → state_num a < length states)
    (ok : (i : ℕ) (s : FsmState)
      → get_elem? states i ≡ some s
      → IsAscending 0 s.out_list × HasTargets s)
    (room : length states * length states < 2 ^ 31) where
  final : IsFinal state_num states small ok (minimize_marks state_num states)
  final = minimize_marks-IsFinal state_num states small ok room

  -- one state, or a pair that is not marked
  abbrev Related : MarkIndex → ℕ → ℕ → Type 0
  Related m i j = (i ≡ j) ⊎ (is_pair_marked m i j ≡ some false)

  -- on one key: no transitions, or two that lead to related states
  abbrev Leads : MarkIndex → Option FsmTrans → Option FsmTrans → Type 0
  Leads m none none = Unit
  Leads m (some t) (some u) = Related m (state_num t.to_state) (state_num u.to_state)
  Leads m _ _ = ⊥

  abbrev Alike : MarkIndex → ℕ → ℕ → Type 0
  Alike m i j =
      SameAt (get_elem? states i) (get_elem? states j)
      × ((k : ℕ) → Leads m (trans_on k (get_elem? states i)) (trans_on k (get_elem? states j)))

  Related-sym : (m : MarkIndex) (i j : ℕ) → Related m i j → Related m j i
  Related-sym m i j (inl e) = inl (sym e)
  Related-sym m i j (inr e) = inr (is_pair_marked_comm m j i ∙ e)

  Leads-refl : (m : MarkIndex) (a : Option FsmTrans) → Leads m a a
  Leads-refl m none = tt
  Leads-refl m (some t) = inl refl

  Leads-sym : (m : MarkIndex) (a b : Option FsmTrans) → Leads m a b → Leads m b a
  Leads-sym m none none h = tt
  Leads-sym m (some t) (some u) h = Related-sym m (state_num t.to_state) (state_num u.to_state) h
  Leads-sym m none (some u) h = absurd h
  Leads-sym m (some t) none h = absurd h

  not_marked :
      (m : MarkIndex) (a b : Option FsmTrans)
      → IsIndex (length states) m
      → SameDataPtr a b
      → ¬ MarkedTargets state_num m a b
      → Leads m a b
  not_marked m none none is same h = tt
  not_marked m none (some u) is same h = absurd same
  not_marked m (some t) none is same h = absurd same
  not_marked m (some t) (some u) is same h =
      let (b, e) =
        is_pair_marked_lt (length states) m is (state_num t.to_state) (state_num u.to_state)
          (small t.to_state) (small u.to_state) in
      elim (Bool-cases b) [
        | inl set ↦ absurd (h (e ∙ ap some set))
        | inr clear ↦ inr (e ∙ ap some clear)
      ]

  Unmoved-Leads :
      (m : MarkIndex) (a b : Option FsmState)
      → IsIndex (length states) m
      → ((s : FsmState) → a ≡ some s → IsAscending 0 s.out_list × HasTargets s)
      → ((s : FsmState) → b ≡ some s → IsAscending 0 s.out_list × HasTargets s)
      → SameAt a b
      → Unmoved state_num states small ok m a b
      → (k : ℕ) → Leads m (trans_on k a) (trans_on k b)
  Unmoved-Leads m none b is oka okb same u k = absurd u
  Unmoved-Leads m (some s) none is oka okb same u k = absurd u
  Unmoved-Leads m (some s) (some t) is oka okb same u k =
      elim (should_mark-MarkedTargets state_num m s t (oka s refl).0 (okb t refl).0
        (λ k. SameDataPtr-none (lookup k s.out_list) (lookup k t.out_list) (same.1 k))
        (oka s refl).1 (okb t refl).1 readable) [
          | inl (e, none_marked) ↦
              not_marked m (lookup k s.out_list) (lookup k t.out_list) is (same.1 k) (none_marked k)
          | inr (e, found) ↦
              let x : some (returned false) ≡ some (returned true) = sym u ∙ e in absurd cc
        ]
    where
      readable : (i j : ℕ) → is_pair_marked m (state_num i) (state_num j) ≢ none
      readable i j e =
          let (b, e') =
            is_pair_marked_lt (length states) m is (state_num i) (state_num j) (small i)
              (small j) in
          cc

  below-Alike :
      (i j : ℕ)
      → i < length states
      → j < i
      → is_pair_marked final.after i j ≡ some false
      → Alike final.after i j
  below-Alike i j li lj clear =
      let same : SameAt (get_elem? states i) (get_elem? states j) = elim (final.seen i j li lj) [
        | inl m ↦ let x : some true ≡ some false = sym m ∙ clear in absurd cc
        | inr s ↦ s
      ] in
      (
        same,
        elim (final.settled i j li lj) [
          | inl m ↦ let x : some true ≡ some false = sym m ∙ clear in absurd cc
          | inr u ↦
              Unmoved-Leads final.after (get_elem? states i) (get_elem? states j)
                final.is_sound.index (ok i) (ok j) same u
        ],
      )

  order_cases : (i j : ℕ) → (i ≡ j) ⊎ ((j < i) ⊎ (i < j))
  order_cases i j = ground arith

  equal-Alike : (i j : ℕ) → i ≡ j → Alike final.after i j
  equal-Alike i j e = rw e (
    SameAt-refl (get_elem? states j),
    λ k. Leads-refl final.after (trans_on k (get_elem? states j)),
  )

  Related-Alike :
      (i j : ℕ)
      → i < length states
      → j < length states
      → Related final.after i j
      → Alike final.after i j
  Related-Alike i j li lj (inl e) = equal-Alike i j e
  Related-Alike i j li lj (inr clear) = elim (order_cases i j) [
    | inl e ↦ equal-Alike i j e
    | inr (inl lt) ↦ below-Alike i j li lt clear
    | inr (inr lt) ↦
        let a = below-Alike j i lj lt (is_pair_marked_comm final.after j i ∙ clear) in
        (
          SameAt-sym (get_elem? states j) (get_elem? states i) a.0,
          λ k.
              Leads-sym final.after (trans_on k (get_elem? states j))
                (trans_on k (get_elem? states i)) (a.1 k),
        )
  ]

  follow-SameAt :
      (word : List ℕ) (a b : Option FsmTrans)
      → Leads final.after a b
      → ((i j : ℕ)
          → i < length states
          → j < length states
          → Related final.after i j
          → SameAt
              (after_word state_num states word (get_elem? states i))
              (after_word state_num states word (get_elem? states j)))
      → SameAt
          (after_word state_num states word (target state_num states a))
          (after_word state_num states word (target state_num states b))
  follow-SameAt word none none l ih = rw (after_word-none state_num states word) tt
  follow-SameAt word (some t) (some u) l ih =
      ih (state_num t.to_state) (state_num u.to_state) (small t.to_state) (small u.to_state) l
  follow-SameAt word none (some u) l ih = absurd l
  follow-SameAt word (some t) none l ih = absurd l

  word-SameAt :
      (word : List ℕ) (i j : ℕ)
      → i < length states
      → j < length states
      → Related final.after i j
      → SameAt
          (after_word state_num states word (get_elem? states i))
          (after_word state_num states word (get_elem? states j))
  word-SameAt [] i j li lj r = (Related-Alike i j li lj r).0
  word-SameAt (k ∷ word) i j li lj r =
      follow-SameAt word (trans_on k (get_elem? states i)) (trans_on k (get_elem? states j))
        ((Related-Alike i j li lj r).1 k) (word-SameAt word)

  -- For at most 46340 states, so that the square of their number is an `int`, whose out lists
  -- ascend, with no transition to the error state and numbers below the number of states for all
  -- targets: the rounds of `minimizeStable` end, without a read or a write outside of the index, an
  -- overflow or a failed assertion. They mark the pair of two states exactly when some word of
  -- keys tells them apart, that is, leads only one of them to a state, or leads them to states that
  -- differ in final status, epsilon transitions, embedded data or the data of the transition on
  -- some key.
  pub minimize_marks-Indistinct :
      (i j : ℕ)
      → i < length states
      → j < length states
      → (m : MarkIndex) × (minimize_marks state_num states ≡ some m)
        × (((is_pair_marked m i j ≡ some true) × Told state_num states i j)
            ⊎ ((is_pair_marked m i j ≡ some false) × Indistinct state_num states i j))
  minimize_marks-Indistinct i j li lj =
      let (b, e) = is_pair_marked_lt (length states) final.after final.is_sound.index i j li lj in
      (
        final.after,
        final.ends,
        elim (Bool-cases b) [
          | inl set ↦ inl (e ∙ ap some set, final.is_sound.sound i j li lj (e ∙ ap some set))
          | inr clear ↦
              inr (e ∙ ap some clear, λ word. word-SameAt word i j li lj (inr (e ∙ ap some clear)))
        ],
      )
