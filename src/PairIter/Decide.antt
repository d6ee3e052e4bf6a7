-- ===== src/PairIter/Decide.antt =====
-- What a loop over src/fsmgraph.h's `PairIter` decides that returns on some keys, when it returns
-- exactly on the keys on which two lists differ.
use colm.Prelude.{ℕ, ◌≡◌, refl, sym, ◌∙◌, Option, none, some, ◌⊎◌, inl, inr}
use colm.PairIter.Loop.{First}

module _ {R : Type 0} (at : ℕ → Option R) (Same Differ : ℕ → Type 0) (Good : R → Type 0) where
  -- on the key nothing is returned and the lists agree, or something good is and they do not
  abbrev pub Decides : ℕ → Type 0
  Decides k = ((at k ≡ none) × Same k) ⊎ ((o : R) × (at k ≡ some o) × Good o × Differ k)

  abbrev pub Decided : Option R → Type 0
  Decided r =
      ((r ≡ none) × ((k : ℕ) → Same k)) ⊎ ((o : R) × (r ≡ some o) × Good o × (k : ℕ) × Differ k)

  pub First-Decided : (r : Option R) → First at r → ((k : ℕ) → Decides k) → Decided r
  First-Decided none h d = inl (
    refl,
    λ k. elim (d k) [
      | inl (e, same) ↦ same
      | inr (o, e, good, differ) ↦ let n : at k ≡ none = h k in cc
    ],
  )
  First-Decided (some r) (k, stops, least) d = elim (d k) [
    | inl (e, same) ↦ cc
    | inr (o, e, good, differ) ↦ inr (o, sym stops ∙ e, good, k, differ)
  ]
