-- ===== src/PairIter/Walk.antt =====
-- src/fsmgraph.h: the loop of every user of `PairIter`,
--   for ( PairIter outPair( l1, l2 ); !outPair.end(); outPair++ ) switch ( outPair.userState )
-- as the list of the segments that its three range cases see.
use mathlib.Core.Option
use colm.Prelude.{ℕ, zero, suc, ◌≡◌, refl, List, [], ◌∷◌, Option, none, some, Bool, true, false}
use colm.Ranges.{Range, range}
use colm.PairIter.{
  PairIter, range_in_s1, range_in_s2, range_overlap, break_s1, break_s2, finished, find_next,
  pair_iter,
}

-- what the caller reads in a range case: the transition of each side, if it has one
pub record Sides {ℓ κ} (A : Type ℓ) (B : Type κ) : Type (ℓ ⊔ κ) where
  pub left : Option A
  pub right : Option B

-- and the keys
abbrev pub Segment {ℓ κ} : (A : Type ℓ) (B : Type κ) → Type (ℓ ⊔ κ)
Segment A B = Range (Sides A B)

module _ {ℓ κ} {A : Type ℓ} {B : Type κ} where
  abbrev pub segment : ℕ → ℕ → Option A → Option B → Segment A B
  segment l h a b = range l h (record { left = a; right = b })

  -- `outPair.end()`
  abbrev pub is_end : PairIter A B → Bool
  is_end it = elim it.it_state [ finished ↦ true | _ ↦ false ]

  -- the case BreakS1: `outPair.s1Tel.trans = dup( outPair.s1Tel.trans )`
  abbrev pub copy_trans1 : (A → A) → PairIter A B → PairIter A B
  copy_trans1 dup it = record it {
    s1_tel = record (it.s1_tel) { trans = Option.map dup it.s1_tel.trans };
  }

  -- the `switch`, on what the caller has gathered from the rest of the walk
  abbrev pub visit : PairIter A B → List (Segment A B) → List (Segment A B)
  visit it rest = elim it.user_state [
    | range_in_s1 ↦ segment it.s1_tel.low_key it.s1_tel.high_key it.s1_tel.trans none ∷ rest
    | range_in_s2 ↦ segment it.s2_tel.low_key it.s2_tel.high_key none it.s2_tel.trans ∷ rest
    | range_overlap ↦
        segment it.s1_tel.low_key it.s1_tel.high_key it.s1_tel.trans it.s2_tel.trans ∷ rest
    | break_s1 ↦ rest
    | break_s2 ↦ rest
  ]

  -- the item after this one, with the caller's change to the iterator made first
  abbrev pub advance : (A → A) → PairIter A B → PairIter A B
  advance dup it = elim it.user_state [
    | break_s1 ↦ find_next (copy_trans1 dup it)
    | _ ↦ find_next it
  ]

  -- one round, on the rest of the walk
  abbrev pub round :
      Bool
      → (List (Segment A B) → List (Segment A B))
      → Option (List (Segment A B))
      → Option (List (Segment A B))
  round done more rest = elim done [ true ↦ some [] | false ↦ Option.map more rest ]

  -- the loop; `none` is a loop that has not ended in so many rounds
  unfoldable pub walk_from : (A → A) → ℕ → PairIter A B → Option (List (Segment A B))
  walk_from dup zero it = none
  walk_from dup (suc f) it =
      let rest = walk_from dup f (advance dup it) in round (is_end it) (visit it) rest

  unfoldable pub walk : (A → A) → ℕ → List (Range A) → List (Range B) → Option (List (Segment A B))
  unfolding walk_from pair_iter
  walk dup f l1 l2 = walk_from dup f (pair_iter l1 l2)

  round_mono :
      (done : Bool) (more : List (Segment A B) → List (Segment A B))
      (o o' : Option (List (Segment A B))) (segs : List (Segment A B))
      → ((s : List (Segment A B)) → o ≡ some s → o' ≡ some s)
      → round done more o ≡ some segs
      → round done more o' ≡ some segs
  round_mono true more o o' segs up h = h
  round_mono false more none o' segs up h = cc
  round_mono false more (some s) o' segs up h = rw (up s refl) h

  -- more rounds do no harm
  pub walk_from-suc :
      (dup : A → A) (f : ℕ) (it : PairIter A B) (segs : List (Segment A B))
      → walk_from dup f it ≡ some segs
      → walk_from dup (suc f) it ≡ some segs
  unfolding walk_from
  walk_from-suc dup zero it segs h = cc
  walk_from-suc dup (suc f) it segs h =
      round_mono (is_end it) (visit it) (walk_from dup f (advance dup it))
        (walk_from dup (suc f) (advance dup it)) segs
        (λ s e. walk_from-suc dup f (advance dup it) s e) h
