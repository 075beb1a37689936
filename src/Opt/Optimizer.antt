-- ===== src/Opt/Optimizer.antt =====
-- src/opt/GeneticOptimizer.hpp and GeneticOptimizer.cpp: the search for gains of least cost. The
-- generator and the distributions of <random>, `std::sort` and the evaluator are parameters. A read
-- outside a vector, undefined in C++, is `none`. Logging is left out, but for what it reads.
pub mod Sizes
pub mod Total
pub mod Ranking
pub mod Elitism
pub mod Bounds
pub mod Sorting
mod Tests
use cubesat_fsw_gnc.Prelude.{
  ℕ, zero, suc, ◌-◌, ◌*◌, ◌%◌, List, [], ◌∷◌, ◌++◌, Option, none, some, get_elem?, length,
  if◌then◌else◌,
}
use cubesat_fsw_gnc.Prelude.Options.{◌>>=◌}
use cubesat_fsw_gnc.Double.{Double, lit, ◌⊕◌, ◌⊖◌, ◌⊗◌, ◌≺◌, fmin, fmax}

pub record Individual (D : Type 0) : Type 0 where
  pub genes : List D
  pub cost : D

pub record Config (D : Type 0) : Type 0 where
  pub population_size : ℕ
  pub num_generations : ℕ
  pub mutation_rate : D
  pub mutation_step : D
  pub num_elites : ℕ
  pub min_gains : List D
  pub max_gains : List D

-- `G` is the state of the generator and of the normal distribution that draws from it, which may keep
-- a spare draw. `uniform` draws from [0, 1), `integer n` from 0 to `n` inclusive, `normal s` makes a
-- fresh distribution of deviation `s`, and `draw` draws from it.
pub record Random (D G : Type 0) : Type 0 where
  pub uniform : G → D × G
  pub integer : ℕ → G → ℕ × G
  pub normal : D → G → G
  pub draw : G → D × G

module _ {D : Type 0} ⦃d : Double D⦄ where
  unfoldable pub default_config : Config D
  default_config = record {
    population_size = 50;
    num_generations = 50;
    mutation_rate = lit 2 1;
    mutation_step = lit 1 1;
    num_elites = 5;
    min_gains = lit 0 0 ∷ lit 0 0 ∷ lit 0 0 ∷ [];
    max_gains = lit 5 0 ∷ lit 5 1 ∷ lit 10 0 ∷ [];
  }

  -- An individual before its evaluation.
  unfoldable pub newborn : List D → Individual D
  newborn genes = record { genes = genes; cost = lit 1000000000000 0 }

  -- `std::max(min, std::min(max, a))`
  unfoldable pub bound : D → D → D → D
  bound low high a = fmax low (fmin high a)

-- The loop over the elites: the first `n`.
unfoldable pub keep_elites : {D : Type 0} → ℕ → List (Individual D) → Option (List (Individual D))
keep_elites zero population = some []
keep_elites (suc n) [] = none
keep_elites (suc n) (a ∷ population) = do elites ← keep_elites n population; some (a ∷ elites)

module _ {D G : Type 0} ⦃d : Double D⦄ ⦃r : Random D G⦄ where
  -- The inner loop of `initializePopulation`, over the bounds of the gains.
  unfoldable pub draw_genes : List D → List D → G → Option (List D × G)
  draw_genes [] highs g = some ([], g)
  draw_genes (low ∷ lows) [] g = none
  draw_genes (low ∷ lows) (high ∷ highs) g =
      let (u, g1) = r.uniform g in
      do (genes, g2) ← draw_genes lows highs g1; some ((low ⊕ u ⊗ (high ⊖ low)) ∷ genes, g2)

  -- `n` new individuals
  unfoldable pub draw_population : Config D → ℕ → G → Option (List (Individual D) × G)
  draw_population c zero g = some ([], g)
  draw_population c (suc n) g = do
    (genes, g1) ← draw_genes c.min_gains c.max_gains g
    (population, g2) ← draw_population c n g1
    some (newborn genes ∷ population, g2)

  unfoldable pub initialize_population : Config D → G → Option (List (Individual D) × G)
  initialize_population c g = draw_population c c.population_size g

  -- The blend of the genes of two parents; the second may have more.
  unfoldable pub blend : List D → List D → G → Option (List D × G)
  blend [] ys g = some ([], g)
  blend (x ∷ xs) [] g = none
  blend (x ∷ xs) (y ∷ ys) g =
      let (weight, g1) = r.uniform g in
      do (genes, g2) ← blend xs ys g1; some ((weight ⊗ x ⊕ (lit 1 0 ⊖ weight) ⊗ y) ∷ genes, g2)

  unfoldable pub breed : Individual D → Individual D → G → Option (Individual D × G)
  breed a b g = do (genes, g1) ← blend a.genes b.genes g; some (newborn genes, g1)

  -- A gene that mutates, at index `i`.
  unfoldable pub step_gene : Config D → ℕ → D → G → Option (D × G)
  step_gene c i x g =
      let (s, g1) = r.draw g in
      do
        low ← get_elem? c.min_gains i
        high ← get_elem? c.max_gains i
        some (bound low high (x ⊕ s), g1)

  -- The body of the loop of `mutate` for the gene at index `i`.
  unfoldable pub mutate_gene : Config D → ℕ → D → G → Option (D × G)
  mutate_gene c i x g =
      let (u, g1) = r.uniform g in if u ≺ c.mutation_rate then step_gene c i x g1 else some (x, g1)

  unfoldable pub mutate_genes : Config D → ℕ → List D → G → Option (List D × G)
  mutate_genes c i [] g = some ([], g)
  mutate_genes c i (x ∷ xs) g = do
    (y, g1) ← mutate_gene c i x g
    (ys, g2) ← mutate_genes c (suc i) xs g1
    some (y ∷ ys, g2)

  unfoldable pub mutate : Config D → Individual D → G → Option (Individual D × G)
  mutate c a g = do
    (genes, g1) ← mutate_genes c 0 a.genes (r.normal c.mutation_step g)
    some (record a { genes = genes }, g1)

  -- One of the parents that `evolve` draws. The remainder by 0 is undefined in C++.
  unfoldable pub draw_parent : Config D → List (Individual D) → G → Option (Individual D × G)
  draw_parent c [] g = none
  draw_parent c (a ∷ rest) g =
      let (i, g1) = r.integer (c.num_elites * 2) g in
      do parent ← get_elem? (a ∷ rest) (i % length (a ∷ rest)); some (parent, g1)

  unfoldable pub make_child : Config D → List (Individual D) → G → Option (Individual D × G)
  make_child c population g = do
    (a, g1) ← draw_parent c population g
    (b, g2) ← draw_parent c population g1
    (child, g3) ← breed a b g2
    mutate c child g3

  -- The `while` loop, as often as individuals are missing.
  unfoldable pub breed_rest :
      Config D → List (Individual D) → ℕ → G → Option (List (Individual D) × G)
  breed_rest c population zero g = some ([], g)
  breed_rest c population (suc n) g = do
    (child, g1) ← make_child c population g
    (children, g2) ← breed_rest c population n g1
    some (child ∷ children, g2)

  unfoldable pub evolve : Config D → List (Individual D) → G → Option (List (Individual D) × G)
  evolve c population g = do
    elites ← keep_elites c.num_elites population
    (children, g1) ← breed_rest c population (c.population_size - length elites) g
    some (elites ++ children, g1)

module _ {D : Type 0} (evaluate : List D → Option D) where
  unfoldable pub evaluate_population : List (Individual D) → Option (List (Individual D))
  evaluate_population [] = some []
  evaluate_population (a ∷ rest) = do
    cost ← evaluate a.genes
    others ← evaluate_population rest
    some (record a { cost = cost } ∷ others)

-- What the log of a generation reads: three genes of the best individual.
unfoldable pub log_best : {D : Type 0} → List (Individual D) → Option D
log_best [] = none
log_best (a ∷ rest) = get_elem? a.genes 2

unfoldable pub best_genes : {D : Type 0} → List (Individual D) → Option (List D)
best_genes [] = none
best_genes (a ∷ rest) = some a.genes

module _ {D : Type 0} (evaluate : List D → Option D)
    (sort : List (Individual D) → List (Individual D)) where
  -- The evaluation and the sorting that begin a generation.
  unfoldable pub rank : List (Individual D) → Option (List (Individual D))
  rank population = do
    evaluated ← evaluate_population evaluate population
    read ← log_best (sort evaluated)
    some (sort evaluated)

module _ {D G : Type 0} ⦃d : Double D⦄ ⦃r : Random D G⦄ (evaluate : List D → Option D)
    (sort : List (Individual D) → List (Individual D)) where
  -- The generations left; all but the last one evolve.
  unfoldable pub generations :
      Config D → ℕ → List (Individual D) → G → Option (List (Individual D) × G)
  generations c zero population g = some (population, g)
  generations c (suc zero) population g = do
    ranked ← rank evaluate sort population
    some (ranked, g)
  generations c (suc (suc n)) population g = do
    ranked ← rank evaluate sort population
    (next, g1) ← evolve c ranked g
    generations c (suc n) next g1

  -- The genes found, and the generator.
  unfoldable pub optimize : Config D → G → Option (List D × G)
  optimize c g = do
    (population, g1) ← initialize_population c g
    (final, g2) ← generations c c.num_generations population g1
    genes ← best_genes final
    some (genes, g2)
