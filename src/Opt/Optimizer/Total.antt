-- ===== src/Opt/Optimizer/Total.antt =====
-- src/opt/GeneticOptimizer.cpp: with a sound configuration every generation keeps the size of the
-- population, and the search returns.
use cubesat_fsw_gnc.Prelude.{
  ℕ, arith, ◌-◌, ◌≤◌, ◌<◌, zero, suc, ◌≡◌, ◌∙◌, true, false, Option, List, [], ◌∷◌, length,
  length-append,
}
use cubesat_fsw_gnc.Prelude.Every.{
  Every-perm, Every-tail, length-perm, Every-append, get_elem?-Returns, Every,
}
use cubesat_fsw_gnc.Opt.Optimizer.Sizes.{
  IsPopulation-cons, HasGenes-prop, IsPopulation-nil, breed_rest-Returns, draw_population-Returns,
  IsSound, HasGenes, IsPopulation,
}
use cubesat_fsw_gnc.Double.{◌≺◌, ◌≼◌, Double}
use mathlib.Core.List.{mem-cons_self, List, Perm, Pairwise}
use cubesat_fsw_gnc.Opt.Optimizer.{
  ◌∷◌, Config, initialize_population, evolve, generations, length, optimize, rank, Individual,
  Random, evaluate_population, ℕ, best_genes, keep_elites, log_best,
}
use cubesat_fsw_gnc.Prelude.Options.{Returns-bind, Returns-some, Returns}

-- What the code relies on in `std::sort` by cost: it rearranges, and where the costs can be
-- compared with themselves (none is a NaN), no later cost is less than an earlier one.
pub record SortsByCost (D : Type 0) ⦃d : Double D⦄
    (sort : List (Individual D) → List (Individual D)) : Type 0 where
  pub perm : (xs : List (Individual D)) → Perm (sort xs) xs
  pub ascending :
      (xs : List (Individual D))
      → Every (λ a. a.cost ≼ a.cost ≡ true) xs
      → Pairwise (λ a b. b.cost ≺ a.cost ≡ false) (sort xs)

module _ {D : Type 0} where
  keep_elites-Returns :
      (j : ℕ) {n : ℕ} (population : List (Individual D))
      → j ≤ length population
      → Every (HasGenes n) population
      → Returns (λ elites. IsPopulation j n elites) (keep_elites j population)
  unfolding keep_elites
  keep_elites-Returns zero population h p = Returns-some (IsPopulation-nil _)
  keep_elites-Returns (suc j) [] h p = absurd (omega arith)
  keep_elites-Returns (suc j) (a ∷ population) h p =
      Returns-bind (keep_elites-Returns j population (omega arith) (Every-tail p))
        λ elites q. Returns-some (IsPopulation-cons (p a mem-cons_self) q)

module _ {D G : Type 0} ⦃d : Double D⦄ ⦃r : Random D G⦄ where
  -- With a sound configuration `evolve` makes a population of the same size from any population of
  -- the configured size whose individuals have a gene for each bound, and so are the new ones.
  pub evolve-Returns :
      (c : Config D) (population : List (Individual D)) (g : G)
      → IsSound c
      → IsPopulation c.population_size (length c.min_gains) population
      → Returns
          (λ (next, g1). IsPopulation c.population_size (length c.min_gains) next)
          (evolve c population g)
  unfolding evolve
  evolve-Returns c population g h p =
      let few : c.num_elites ≤ length population = omega (arith, h, p.0) in
      Returns-bind (keep_elites-Returns c.num_elites population few p.1) λ elites q.
        Returns-bind
          (breed_rest-Returns c population (c.population_size - length elites) g h.3 h.1 p)
          λ (children, g1) q'. Returns-some (
            omega (arith, length-append elites children, h, q.0, q'.0),
            Every-append (HasGenes-prop (length c.min_gains)) q.1 q'.1,
          )

module _ {D : Type 0} (evaluate : List D → Option D) where
  -- The evaluator has a cost for all of at least three gains.
  abbrev pub Evaluates : Type 0
  Evaluates = (genes : List D) → 3 ≤ length genes → Returns {0, 0} (λ cost. Unit) (evaluate genes)

  evaluate_population-Returns :
      {k n : ℕ} (population : List (Individual D))
      → 3 ≤ n
      → Evaluates
      → IsPopulation k n population
      → Returns (λ evaluated. IsPopulation k n evaluated) (evaluate_population evaluate population)
  unfolding evaluate_population
  evaluate_population-Returns [] h total p = Returns-some p
  evaluate_population-Returns {k = zero} (a ∷ rest) h total p = absurd (omega (arith, p.0))
  evaluate_population-Returns {k = suc k} {n} (a ∷ rest) h total p =
      let has = p.1 a mem-cons_self in
      let others : IsPopulation k n rest = (omega (arith, p.0), Every-tail p.1) in
      Returns-bind (total a.genes (omega (arith, has))) λ cost u.
        Returns-bind (evaluate_population-Returns {k = k} rest h total others)
          λ evaluated q. Returns-some (IsPopulation-cons has q)

log_best-Returns :
    {D : Type 0} {k n : ℕ} (population : List (Individual D))
    → 3 ≤ n
    → 0 < k
    → IsPopulation k n population
    → Returns {0, 0} (λ gene. Unit) (log_best population)
unfolding log_best
log_best-Returns [] h h' p = absurd (omega (arith, p.0))
log_best-Returns (a ∷ rest) h h' p =
    get_elem?-Returns a.genes 2 (omega (arith, h, p.1 a mem-cons_self))

best_genes-Returns :
    {D : Type 0} {k n : ℕ} (population : List (Individual D))
    → 0 < k
    → IsPopulation k n population
    → Returns (λ genes. length genes ≡ n) (best_genes population)
unfolding best_genes
best_genes-Returns [] h' p = absurd (omega (arith, p.0))
best_genes-Returns (a ∷ rest) h' p = Returns-some (p.1 a mem-cons_self)

module _ {D : Type 0} ⦃d : Double D⦄ (evaluate : List D → Option D)
    (sort : List (Individual D) → List (Individual D)) where
  sort-IsPopulation :
      {k n : ℕ} (population : List (Individual D))
      → SortsByCost D sort
      → IsPopulation k n population
      → IsPopulation k n (sort population)
  sort-IsPopulation population s p =
      (length-perm (s.perm population) ∙ p.0, Every-perm (s.perm population) p.1)

  pub rank-Returns :
      {k n : ℕ} (population : List (Individual D))
      → 3 ≤ n
      → 0 < k
      → Evaluates evaluate
      → SortsByCost D sort
      → IsPopulation k n population
      → Returns (λ ranked. IsPopulation k n ranked) (rank evaluate sort population)
  unfolding rank
  rank-Returns population h h' total s p =
      Returns-bind (evaluate_population-Returns evaluate population h total p) λ evaluated q.
        let q' = sort-IsPopulation evaluated s q in
        Returns-bind (log_best-Returns (sort evaluated) h h' q') λ gene u. Returns-some q'

module _ {D G : Type 0} ⦃d : Double D⦄ ⦃r : Random D G⦄ (evaluate : List D → Option D)
    (sort : List (Individual D) → List (Individual D)) where
  generations-Returns :
      (c : Config D) (j : ℕ) (population : List (Individual D)) (g : G)
      → IsSound c
      → Evaluates evaluate
      → SortsByCost D sort
      → IsPopulation c.population_size (length c.min_gains) population
      → Returns
          (λ (final, g1). IsPopulation c.population_size (length c.min_gains) final)
          (generations evaluate sort c j population g)
  unfolding generations
  generations-Returns c zero population g h total s p = Returns-some p
  generations-Returns c (suc zero) population g h total s p =
      Returns-bind (rank-Returns evaluate sort population h.0 h.3 total s p)
        λ ranked q. Returns-some q
  generations-Returns c (suc (suc j)) population g h total s p =
      Returns-bind (rank-Returns evaluate sort population h.0 h.3 total s p) λ ranked q.
        Returns-bind (evolve-Returns c ranked g h q)
          λ (next, g1) q'. generations-Returns c (suc j) next g1 h total s q'

  -- With a sound configuration, an evaluator that has a cost for any three or more gains, and a sort
  -- that rearranges, the search returns a gain for each bound: no read leaves a vector.
  pub optimize-Returns :
      (c : Config D) (g : G)
      → IsSound c
      → Evaluates evaluate
      → SortsByCost D sort
      → Returns (λ (genes, g1). length genes ≡ length c.min_gains) (optimize evaluate sort c g)
  unfolding optimize initialize_population
  optimize-Returns c g h total s =
      Returns-bind (draw_population-Returns c c.population_size g h) λ (population, g1) p.
        Returns-bind (generations-Returns c c.num_generations population g1 h total s p)
          λ (final, g2) q. Returns-bind (best_genes-Returns final h.3 q) λ genes l. Returns-some l
