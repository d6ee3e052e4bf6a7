-- ===== src/Gaps.antt =====
-- src/fsmap.cc `FsmGraph::fillGaps`, src/fsmmin.cc `FsmGraph::outListCovers` and src/redfsm.cc
-- `RedFsm::alphabetCovered`: the keys of the alphabet on which a state has no transition.
--
-- The alphabet is `keyOps->minKey` to `keyOps->maxKey`. `fillGaps` takes the out list apart and
-- appends its transitions again, with a new transition on each gap; `gap` is what
-- `attachNewTrans( state, 0, low, high )` puts there, an error transition with no data.
pub mod Fill
pub mod Covers
use colm.Prelude.{
  ℕ, List, [], ◌∷◌, Bool, true, false, not, ltb, leb, ◌==◌, if◌then◌else◌, ◌≤◌, ◌&&◌,
}
use colm.Key.{increment, decrement}
use colm.Ranges.{Range, range}

abbrev pub in_alphabet : ℕ → ℕ → ℕ → Bool
in_alphabet min_key max_key k = leb min_key k && leb k max_key

module _ {A : Type 0} (max_key : ℕ) where
  -- no range ends behind the alphabet
  abbrev pub IsWithin : List (Range A) → Type 0
  IsWithin [] = Unit
  IsWithin (r ∷ rs) = (r.high_key ≤ max_key) × IsWithin rs

  -- the loop of `fillGaps` over the rest of the source ranges, and the gap on the end
  unfoldable pub fill_rest : A → ℕ → List (Range A) → List (Range A)
  fill_rest gap last_high [] =
      if ltb last_high max_key then range (increment last_high) max_key gap ∷ [] else []
  fill_rest gap last_high (trans ∷ rest) =
      let tail = trans ∷ fill_rest gap trans.high_key rest in
      let next_key = increment last_high in
      if ltb next_key trans.low_key
      then range next_key (decrement trans.low_key) gap ∷ tail
      else tail

  -- the loop of `outListCovers` from the second element on, and its test of the last
  unfoldable pub covers_rest : ℕ → List (Range A) → Bool
  covers_rest prev_high [] = not (ltb prev_high max_key)
  covers_rest prev_high (trans ∷ rest) =
      let more = covers_rest trans.high_key rest in
      if ltb prev_high (decrement trans.low_key) then false else more

  -- the loop of `alphabetCovered` from the second element on, and its test of the last
  unfoldable pub covered_rest : ℕ → List (Range A) → Bool
  covered_rest prev_high [] = not (ltb prev_high max_key)
  covered_rest prev_high (rtel ∷ rest) =
      let more = covered_rest rtel.high_key rest in
      if not (increment prev_high == rtel.low_key) then false else more

module _ {A : Type 0} (min_key max_key : ℕ) where
  -- `FsmGraph::fillGaps`
  unfoldable pub fill_gaps : A → List (Range A) → List (Range A)
  unfolding fill_rest
  fill_gaps gap [] = range min_key max_key gap ∷ []
  fill_gaps gap (trans ∷ rest) =
      let tail = trans ∷ fill_rest max_key gap trans.high_key rest in
      if ltb min_key trans.low_key then range min_key (decrement trans.low_key) gap ∷ tail else tail

  -- `FsmGraph::outListCovers`
  unfoldable pub out_list_covers : List (Range A) → Bool
  unfolding covers_rest
  out_list_covers [] = false
  out_list_covers (trans ∷ rest) =
      if ltb min_key trans.low_key then false else covers_rest max_key trans.high_key rest

  -- `RedFsm::alphabetCovered`
  unfoldable pub alphabet_covered : List (Range A) → Bool
  unfolding covered_rest
  alphabet_covered [] = false
  alphabet_covered (rtel ∷ rest) =
      if ltb min_key rtel.low_key then false else covered_rest max_key rtel.high_key rest
