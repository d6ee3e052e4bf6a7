-- ===== src/Priors/Set.antt =====
-- `set_prior` keeps a table ordered, and the later of two priorities on one key.
use mathlib.Core.Path.{subst}
use colm.Prelude.{
  ℕ, suc, ◌≤◌, ◌<◌, ◌≡◌, refl, ap, ◌∙◌, List, [], ◌∷◌, Option, none, some, arith, leb, ◌==◌,
  if◌then◌else◌,
}
use colm.Fsm.{PriorDesc, PriorEl}
use colm.Priors.{prior_key, set_prior, set_priors}

module _ (descs : ℕ → PriorDesc) where
  -- ascending keys from `b` on
  abbrev pub IsPriors : ℕ → List PriorEl → Type 0
  IsPriors b [] = Unit
  IsPriors b (x ∷ table) = (b ≤ prior_key descs x) × IsPriors (suc (prior_key descs x)) table

  -- the element on a key
  abbrev pub prior_at : ℕ → List PriorEl → Option PriorEl
  prior_at k [] = none
  prior_at k (x ∷ table) = if prior_key descs x == k then some x else prior_at k table

  pub prior_at_below :
      (k b : ℕ) (table : List PriorEl) → IsPriors b table → k < b → prior_at k table ≡ none
  prior_at_below k b [] u lt = refl
  prior_at_below k b (x ∷ table) u lt =
      ground (arith, prior_at_below k (suc (prior_key descs x)) table u.1)

  -- the one with the larger ordering, and the new one if they are the same
  abbrev pub later : PriorEl → Option PriorEl → PriorEl
  later el none = el
  later el (some old) = if leb old.ordering el.ordering then el else old

  IsPriors-set_prior :
      (b : ℕ) (el : PriorEl) (table : List PriorEl)
      → IsPriors b table
      → b ≤ prior_key descs el
      → IsPriors b (set_prior descs el table)
  unfolding set_prior
  IsPriors-set_prior b el [] u le = (le, tt)
  IsPriors-set_prior b el (x ∷ table) u le = ground (
    arith,
    IsPriors-set_prior (suc (prior_key descs x)) el table u.1,
    IsPriors-eq (suc (prior_key descs x)) (suc (prior_key descs el)) table u.1,
  )
    where
      IsPriors-eq : (a b : ℕ) (table : List PriorEl) → IsPriors a table → a ≡ b → IsPriors b table
      IsPriors-eq a b table v e = subst (λ c. IsPriors c table) e v

  prior_at-set_prior :
      (k b : ℕ) (el : PriorEl) (table : List PriorEl)
      → IsPriors b table
      → prior_at k (set_prior descs el table)
        ≡ (if prior_key descs el == k then some (later el (prior_at k table)) else prior_at k table)
  unfolding set_prior
  prior_at-set_prior k b el [] u = refl
  prior_at-set_prior k b el (x ∷ table) u = ground (
    arith,
    prior_at-set_prior k (suc (prior_key descs x)) el table u.1,
    prior_at_below k (suc (prior_key descs x)) table u.1,
  )

  -- For a table with ascending keys: `setPrior` leaves ascending keys, and sets the priority on its
  -- key if there is none or the one there is not of a larger ordering, and on no other key.
  pub set_prior_lem :
      (k : ℕ) (el : PriorEl) (table : List PriorEl)
      → IsPriors 0 table
      → IsPriors 0 (set_prior descs el table)
        × (prior_at k (set_prior descs el table) ≡ (
            if prior_key descs el == k
            then some (later el (prior_at k table))
            else prior_at k table))
  set_prior_lem k el table u =
      (IsPriors-set_prior 0 el table u (omega arith), prior_at-set_prior k 0 el table u)

  -- what stays on a key when the elements come one after another
  abbrev pub latest : ℕ → List PriorEl → Option PriorEl → Option PriorEl
  latest k [] old = old
  latest k (el ∷ other) old =
      latest k other (if prior_key descs el == k then some (later el old) else old)

  -- For a table with ascending keys, and other priorities in any order: `setPriors` leaves ascending
  -- keys, and on every key what stays when the priorities on it come one after another, each taking
  -- the place of one that is of a smaller ordering or of the same.
  pub set_priors_lem :
      (k : ℕ) (other table : List PriorEl)
      → IsPriors 0 table
      → IsPriors 0 (set_priors descs other table)
        × (prior_at k (set_priors descs other table) ≡ latest k other (prior_at k table))
  unfolding set_priors
  set_priors_lem k [] table u = (u, refl)
  set_priors_lem k (el ∷ other) table u =
      let (asc, at) = set_prior_lem k el table u in
      let (asc', at') = set_priors_lem k other (set_prior descs el table) asc in
      (asc', at' ∙ ap (latest k other) at)
