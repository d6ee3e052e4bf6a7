-- ===== src/Mark/Run.antt =====
-- Where a word of keys leads to in a graph of states, and what tells two states apart.
use colm.Prelude.{ℕ, ◌≡◌, refl, sym, List, [], ◌∷◌, Option, none, some, get_elem?}
use colm.Ranges.{lookup}
use colm.Fsm.{FsmTrans, FsmState}
use colm.Fsm.Equal.{SameDataPtr, SameInit, SameHead}

-- the two states agree, or there are none
abbrev pub SameAt : Option FsmState → Option FsmState → Type 0
SameAt none none = Unit
SameAt (some s) (some t) = SameInit s t
SameAt _ _ = ⊥

SameHead-refl : (s : FsmState) → SameHead s s
SameHead-refl s = record {
  final = refl;
  epsilon = refl;
  state_data = record {
    out_priors = refl;
    to_state = refl;
    from_state = refl;
    out_actions = refl;
    out_conds = refl;
    err_actions = refl;
    eof_actions = refl;
  };
}

SameHead-sym : (s t : FsmState) → SameHead s t → SameHead t s
SameHead-sym s t h = record {
  final = sym h.final;
  epsilon = sym h.epsilon;
  state_data = record {
    out_priors = sym h.state_data.out_priors;
    to_state = sym h.state_data.to_state;
    from_state = sym h.state_data.from_state;
    out_actions = sym h.state_data.out_actions;
    out_conds = sym h.state_data.out_conds;
    err_actions = sym h.state_data.err_actions;
    eof_actions = sym h.state_data.eof_actions;
  };
}

SameDataPtr-refl : (a : Option FsmTrans) → SameDataPtr a a
SameDataPtr-refl none = tt
SameDataPtr-refl (some t) = record { priors = refl; lm_actions = refl; actions = refl }

SameDataPtr-sym : (a b : Option FsmTrans) → SameDataPtr a b → SameDataPtr b a
SameDataPtr-sym none none h = tt
SameDataPtr-sym (some t) (some u) h = record {
  priors = sym h.priors;
  lm_actions = sym h.lm_actions;
  actions = sym h.actions;
}
SameDataPtr-sym none (some u) h = absurd h
SameDataPtr-sym (some t) none h = absurd h

pub SameAt-refl : (a : Option FsmState) → SameAt a a
SameAt-refl none = tt
SameAt-refl (some s) = (SameHead-refl s, λ k. SameDataPtr-refl (lookup k s.out_list))

pub SameAt-sym : (a b : Option FsmState) → SameAt a b → SameAt b a
SameAt-sym none none h = tt
SameAt-sym (some s) (some t) h =
    (SameHead-sym s t h.0, λ k. SameDataPtr-sym (lookup k s.out_list) (lookup k t.out_list) (h.1 k))
SameAt-sym none (some u) h = absurd h
SameAt-sym (some t) none h = absurd h

-- the transition of a state on a key
abbrev pub trans_on : ℕ → Option FsmState → Option FsmTrans
trans_on k none = none
trans_on k (some s) = lookup k s.out_list

module _ (state_num : ℕ → ℕ) (states : List FsmState) where
  -- where a transition leads to
  abbrev pub target : Option FsmTrans → Option FsmState
  target none = none
  target (some t) = get_elem? states (state_num t.to_state)

  -- where a word of keys leads to
  abbrev pub after_word : List ℕ → Option FsmState → Option FsmState
  after_word [] s = s
  after_word (k ∷ word) s = after_word word (target (trans_on k s))

  pub after_word-none : (word : List ℕ) → after_word word none ≡ none
  after_word-none [] = refl
  after_word-none (k ∷ word) = after_word-none word

  -- a word leads the states of two numbers to states that do not agree
  abbrev pub Told : ℕ → ℕ → Type 0
  Told i j =
      (word : List ℕ) × ¬ SameAt (after_word word (get_elem? states i))
        (after_word word (get_elem? states j))

  -- every word leads them to states that agree
  abbrev pub Indistinct : ℕ → ℕ → Type 0
  Indistinct i j =
      (word : List ℕ)
      → SameAt (after_word word (get_elem? states i)) (after_word word (get_elem? states j))

  pub Told-sym : (i j : ℕ) → Told i j → Told j i
  Told-sym i j (word, differ) = (
    word,
    λ h. differ (
        SameAt-sym (after_word word (get_elem? states j)) (after_word word (get_elem? states i)) h),
  )

  pub Told-here :
      (i j : ℕ) (s t : FsmState)
      → get_elem? states i ≡ some s
      → get_elem? states j ≡ some t
      → ¬ SameInit s t
      → Told i j
  Told-here i j s t at_i at_j differ = ([], rw (at_i, at_j) differ)

  pub Told-further :
      (i j k : ℕ) (s t : FsmState) (a b : FsmTrans)
      → get_elem? states i ≡ some s
      → get_elem? states j ≡ some t
      → lookup k s.out_list ≡ some a
      → lookup k t.out_list ≡ some b
      → Told (state_num a.to_state) (state_num b.to_state)
      → Told i j
  Told-further i j k s t a b at_i at_j at_a at_b (word, differ) =
      (k ∷ word, rw (at_i, at_j, at_a, at_b) differ)
