-- ===== src/Opt/Optimizer/Tests.antt =====
-- Runs of the search on concrete numbers.
use cubesat_fsw_gnc.Opt.Optimizer.Bounds.{mutate-InBounds, InBounds}
use cubesat_fsw_gnc.Prelude.Int.{pos, ℤ}
use cubesat_fsw_gnc.Fixed.{
  Fixed, nan, num, fixed_double, fixed_eigen, fixed_libm, fixed_matrices, fixed_stored,
  fixed_reductions, Fixed-IsOrdered,
}
use cubesat_fsw_gnc.Prelude.{
  ℕ, arith, ◌+◌, ◌*◌, ◌%◌, suc, ◌≡◌, refl, ◌⊎◌, true, Option, none, some, List, [], ◌∷◌, get_elem?,
}
use cubesat_fsw_gnc.Opt.Optimizer.{
  breed, blend, mutate_genes, mutate_gene, step_gene, bound, draw_parent, make_child, breed_rest,
  keep_elites, best_genes, log_best, evaluate_population, rank, generations, newborn, draw_genes,
  evolve, draw_population, mutate, initialize_population, Individual, lit, optimize, Config, Random,
}
use cubesat_fsw_gnc.Opt.Optimizer.Sorting.{insert, insertion_sort-SortsByCost, insertion_sort}
use cubesat_fsw_gnc.Prelude.Every.{Every-nil, Every-cons, Every}
use cubesat_fsw_gnc.Opt.Optimizer.Sizes.{HasGenes-prop, HasGenes, IsSound}
use cubesat_fsw_gnc.Opt.Optimizer.Total.{Evaluates, SortsByCost}
use cubesat_fsw_gnc.Opt.Optimizer.Elitism.{optimize-le-initial}
use mathlib.Core.List.{mem-cons_of_mem, mem-cons_self}
use mathlib.Core.Option.{some-injective, none-ne-some}
use cubesat_fsw_gnc.Double.{◌≼◌}
use mathlib.Core.Path.{subst}
use cubesat_fsw_gnc.Prelude.Options.{Returns-some}
use cubesat_fsw_gnc.Opt.Optimizer.Ranking.{NeverNan}

-- A generator that counts; its draws are fractions of ten.
instance abbrev counting : Random Fixed ℕ
counting = record {
  uniform = λ g. (lit (g * 7 % 10) 1, g + 1);
  integer = λ n g. (g * 5 % suc n, g + 1);
  normal = λ s g. g;
  draw = λ g. (lit (g % 4) 0, g + 1);
}

-- Three individuals, one of them an elite, over two generations.
abbrev small : Config Fixed
small = record {
  population_size = 3;
  num_generations = 2;
  mutation_rate = lit 5 1;
  mutation_step = lit 1 1;
  num_elites = 1;
  min_gains = lit 0 0 ∷ lit 0 0 ∷ lit 0 0 ∷ [];
  max_gains = lit 5 0 ∷ lit 5 1 ∷ lit 10 0 ∷ [];
}

-- The cost is the first gain, with a NaN as nothing.
abbrev first_gain : List Fixed → Option Fixed
first_gain [] = none
first_gain (a ∷ []) = none
first_gain (a ∷ b ∷ []) = none
first_gain (nan ∷ b ∷ c ∷ rest) = some (lit 0 0)
first_gain (num z ∷ b ∷ c ∷ rest) = some (num z)

first_gain-Evaluates : Evaluates first_gain
first_gain-Evaluates [] h = absurd (omega arith)
first_gain-Evaluates (a ∷ []) h = absurd (omega arith)
first_gain-Evaluates (a ∷ b ∷ []) h = absurd (omega arith)
first_gain-Evaluates (nan ∷ b ∷ c ∷ rest) h = Returns-some tt
first_gain-Evaluates (num z ∷ b ∷ c ∷ rest) h = Returns-some tt

num_refl : (z : ℤ) → num z ≼ num z ≡ true
num_refl z = ground arith

first_gain-NeverNan : NeverNan first_gain
first_gain-NeverNan [] k h = absurd (none-ne-some _ h)
first_gain-NeverNan (a ∷ []) k h = absurd (none-ne-some _ h)
first_gain-NeverNan (a ∷ b ∷ []) k h = absurd (none-ne-some _ h)
first_gain-NeverNan (nan ∷ b ∷ c ∷ rest) k h =
    subst (λ x. x ≼ x ≡ true) (some-injective _ _ h) (num_refl (pos 0))
first_gain-NeverNan (num z ∷ b ∷ c ∷ rest) k h =
    subst (λ x. x ≼ x ≡ true) (some-injective _ _ h) (num_refl z)

small-IsSound : IsSound small
small-IsSound = (omega arith, refl, omega arith, omega arith)

abbrev fixed_sorts : SortsByCost Fixed insertion_sort
fixed_sorts = insertion_sort-SortsByCost Fixed-IsOrdered

abbrev starter : ℕ → ℕ → ℕ → Individual Fixed
starter a b c = record { genes = lit a 1 ∷ lit b 2 ∷ lit c 0 ∷ []; cost = lit 1000000000000 0 }

initialize-small :
    initialize_population {G = ℕ} small 1
    ≡ some (starter 35 20 1 ∷ starter 40 25 2 ∷ starter 45 30 3 ∷ [], 10)
unfolding initialize_population draw_population draw_genes newborn
initialize-small = refl

optimize-small :
    optimize {G = ℕ} first_gain insertion_sort small 1
    ≡ some (lit 35 1 ∷ lit 20 2 ∷ lit 1 0 ∷ [], 28)
unfolding optimize initialize_population draw_population draw_genes newborn generations rank
    evaluate_population insertion_sort insert log_best evolve keep_elites breed_rest make_child
    draw_parent breed blend mutate mutate_genes mutate_gene step_gene bound best_genes
optimize-small = refl

optimize-le-initial_example : ◌≼◌ {D = Fixed} (lit 35 1) (lit 45 1) ≡ true
optimize-le-initial_example =
    optimize-le-initial first_gain insertion_sort Fixed-IsOrdered fixed_sorts first_gain-NeverNan
      small 1 (starter 45 30 3) (lit 45 1) (lit 35 1) (omega arith) (omega arith) initialize-small
      optimize-small (mem-cons_of_mem _ (mem-cons_of_mem _ mem-cons_self)) refl refl

starters : Every (HasGenes 3) (starter 35 20 1 ∷ starter 40 25 2 ∷ starter 45 30 3 ∷ [])
starters =
    Every-cons (HasGenes-prop 3) refl (
      Every-cons (HasGenes-prop 3) refl
        (Every-cons (HasGenes-prop 3) refl (Every-nil (HasGenes 3))))

mutate-small :
    mutate {G = ℕ} small (starter 45 30 3) 7
    ≡ some (record (starter 45 30 3) { genes = lit 45 1 ∷ lit 30 2 ∷ lit 5 0 ∷ [] }, 11)
unfolding mutate mutate_genes mutate_gene step_gene bound
mutate-small = refl

mutate-InBounds_example :
    (get_elem? (starter 45 30 3).genes 2 ≡ some (lit 5 0)) ⊎ InBounds small 2 (lit 5 0)
mutate-InBounds_example =
    mutate-InBounds Fixed-IsOrdered small (starter 45 30 3) 7 2 (lit 5 0) mutate-small refl
