-- ===== src/Examples/Priorities.antt =====
-- Priority tables.
use Prim.Native.Nat.{Ordering}
use Prim.Native.Nat.Ordering.{lt}
use colm.Prelude.{ℕ, ◌/◌, ◌%◌, ◌≡◌, refl, List, [], ◌∷◌, Option, some, arith}
use colm.PairIter.Loop.{First}
use colm.Fsm.{PriorDesc, PriorEl}
use colm.Fsm.Compare.{after_loop}
use colm.Priors.{set_priors, compare_prior}
use colm.Priors.Set.{IsPriors, prior_at, latest, set_priors_lem}
use colm.Priors.Precedence.{precedence, compare_prior-First}

-- descriptors on the keys 1, 1 and 2 at the addresses 2, 3 and 4
abbrev some_descs : ℕ → PriorDesc
some_descs d = record { key = d / 2; priority = d % 2 }

abbrev first_table : List PriorEl
first_table = record { ordering = 1; desc = 2 } ∷ record { ordering = 2; desc = 4 } ∷ []

abbrev second_table : List PriorEl
second_table = record { ordering = 1; desc = 3 } ∷ record { ordering = 2; desc = 4 } ∷ []

first-IsPriors : IsPriors some_descs 0 first_table
first-IsPriors = omega arith

second-IsPriors : IsPriors some_descs 0 second_table
second-IsPriors = omega arith

set_priors_tables : set_priors some_descs second_table first_table ≡ second_table
unfolding set_priors
set_priors_tables = refl

compare_prior_tables : compare_prior some_descs first_table second_table ≡ some lt
unfolding compare_prior
compare_prior_tables = refl

abbrev new_prior : PriorEl
new_prior = record { ordering = 3; desc = 3 }

compare_prior-First_example :
    (r : Option Ordering) × (compare_prior some_descs first_table second_table
      ≡ some (after_loop r))
    × First
        (λ k.
          precedence some_descs
            (prior_at some_descs k first_table)
            (prior_at some_descs k second_table))
        r
compare_prior-First_example =
    compare_prior-First some_descs first_table second_table first-IsPriors second-IsPriors

set_priors_lem_example :
    IsPriors some_descs 0 (set_priors some_descs second_table first_table)
    × (prior_at some_descs 1 (set_priors some_descs second_table first_table)
        ≡ latest some_descs 1 second_table (prior_at some_descs 1 first_table))
set_priors_lem_example = set_priors_lem some_descs 1 second_table first_table first-IsPriors
