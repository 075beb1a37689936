-- ===== src/Opt/Optimizer/Elitism.antt =====
-- src/opt/GeneticOptimizer.cpp: the elites carry the best individual into the next generation, so no
-- generation is worse than the one before.
use cubesat_fsw_gnc.Prelude.{
  ℕ, arith, ◌-◌, ◌<◌, zero, suc, ◌≡◌, refl, sym, ap, ◌∙◌, true, Option, some, List, [], ◌∷◌, length,
}
use cubesat_fsw_gnc.Opt.Optimizer.Ranking.{NeverNan, IsEvaluated, rank-IsEvaluated, rank-least}
use cubesat_fsw_gnc.Opt.Optimizer.{
  initialize_population, optimize, best_genes, generations, breed_rest, log_best, Config, rank,
  Random, evolve, keep_elites, Individual, evaluate_population,
}
use mathlib.Core.Option.{none-ne-some, some-injective}
use cubesat_fsw_gnc.Prelude.Every.{Every}
use cubesat_fsw_gnc.Double.{IsOrdered, ◌≼◌, Double}
use cubesat_fsw_gnc.Opt.Optimizer.Total.{SortsByCost}
use mathlib.Core.List.{mem-append, Mem, mem-cons_self}
use mathlib.Core.Bool.{Bool-set}
use cubesat_fsw_gnc.Prelude.Options.{>>=-eq_some}
use mathlib.Core.Logic.{∥∥₁_elim}
use mathlib.Core.Logic.Or
use mathlib.Core.Path.{subst}

keep_elites-mem :
    {D : Type 0} (j : ℕ) (b : Individual D) (rest : List (Individual D))
    {elites : List (Individual D)}
    → 0 < j
    → keep_elites j (b ∷ rest) ≡ some elites
    → Mem b elites
unfolding keep_elites
keep_elites-mem zero b rest h e = absurd (omega arith)
keep_elites-mem (suc j) b rest h e =
    let (others, e', h') = >>=-eq_some (keep_elites j rest) e in
    subst (Mem b) (some-injective _ _ h') mem-cons_self

evolve-mem :
    {D G : Type 0} ⦃d : Double D⦄ ⦃r : Random D G⦄ (c : Config D) (b : Individual D)
    (rest : List (Individual D)) (g : G) {next : List (Individual D)} {g1 : G}
    → 0 < c.num_elites
    → evolve c (b ∷ rest) g ≡ some (next, g1)
    → Mem b next
unfolding evolve
evolve-mem c b rest g h e =
    let (elites, e1, h1) = >>=-eq_some (keep_elites c.num_elites (b ∷ rest)) e in
    let ((children, g2), e2, h2) =
      >>=-eq_some (breed_rest c (b ∷ rest) (c.population_size - length elites) g) h1 in
    subst (Mem b) (ap (λ t. t.0) (some-injective _ _ h2))
      (mem-append.1 (Or.inl (keep_elites-mem c.num_elites b rest h e1)))

suc_pred : (n : ℕ) → 0 < n → n ≡ suc (n - 1)
suc_pred n h = omega arith

log_best-cons :
    {D : Type 0} (population : List (Individual D)) {gene : D}
    → log_best population ≡ some gene
    → (b : Individual D) × (rest : List (Individual D)) × (population ≡ b ∷ rest)
unfolding log_best
log_best-cons [] h = absurd (none-ne-some _ h)
log_best-cons (b ∷ rest) h = (b, rest, refl)

rank-cons :
    {D : Type 0} (evaluate : List D → Option D) (sort : List (Individual D) → List (Individual D))
    (population : List (Individual D)) {ranked : List (Individual D)}
    → rank evaluate sort population ≡ some ranked
    → (b : Individual D) × (rest : List (Individual D)) × (ranked ≡ b ∷ rest)
unfolding rank
rank-cons evaluate sort population h =
    let (evaluated, e, h') = >>=-eq_some (evaluate_population evaluate population) h in
    let (gene, e', h'') = >>=-eq_some (log_best (sort evaluated)) h' in
    let (b, rest, same) = log_best-cons (sort evaluated) e' in
    (b, rest, sym (some-injective _ _ h'') ∙ same)

module _ {D : Type 0} ⦃d : Double D⦄ (evaluate : List D → Option D)
    (sort : List (Individual D) → List (Individual D)) (o : IsOrdered D) (s : SortsByCost D sort)
    (real : NeverNan evaluate) where
  best-le :
      (final : List (Individual D)) {genes : List D} (k cost : D)
      → Every (IsEvaluated evaluate) final
      → ((b : Individual D) (rest : List (Individual D)) → final ≡ b ∷ rest → b.cost ≼ k ≡ true)
      → best_genes final ≡ some genes
      → evaluate genes ≡ some cost
      → cost ≼ k ≡ true
  unfolding best_genes
  best-le [] k cost evaluated least h e = absurd (none-ne-some _ h)
  best-le (b ∷ rest) k cost evaluated least h e =
      ∥∥₁_elim (evaluated b mem-cons_self) (Bool-set _ _) λ eb.
        let same : b.cost ≡ cost =
          some-injective _ _ (sym eb ∙ ap evaluate (some-injective _ _ h) ∙ e) in
        subst (λ z. z ≼ k ≡ true) same (least b rest refl)

module _ {D G : Type 0} ⦃d : Double D⦄ ⦃r : Random D G⦄ (evaluate : List D → Option D)
    (sort : List (Individual D) → List (Individual D)) (o : IsOrdered D) (s : SortsByCost D sort)
    (real : NeverNan evaluate) where
  generations-least :
      (c : Config D) (j : ℕ) (population : List (Individual D)) (g : G)
      {final : List (Individual D)} {g1 : G} {genes : List D} (a : Individual D) (k cost : D)
      → 0 < c.num_elites
      → generations evaluate sort c (suc j) population g ≡ some (final, g1)
      → Mem a population
      → evaluate a.genes ≡ some k
      → best_genes final ≡ some genes
      → evaluate genes ≡ some cost
      → cost ≼ k ≡ true
  unfolding generations
  generations-least c zero population g {final} a k cost n h m e hb ec =
      let (ranked, er, h') = >>=-eq_some (rank evaluate sort population) h in
      let er' = er ∙ ap some (ap (λ t. t.0) (some-injective _ _ h')) in
      best-le evaluate sort o s real final k cost
        (rank-IsEvaluated evaluate sort o s real population er')
        (λ b rest same. rank-least evaluate sort o s real population (er' ∙ ap some same) a k m e)
        hb ec
  generations-least c (suc j) population g a k cost n h m e hb ec =
      let (ranked, er, h') = >>=-eq_some (rank evaluate sort population) h in
      let (b, rest, same) = rank-cons evaluate sort population er in
      let er' = er ∙ ap some same in
      let ((next, g1), ev, h'') = >>=-eq_some (evolve c ranked g) h' in
      let kept = evolve-mem c b rest g n (ap (λ l. evolve c l g) (sym same) ∙ ev) in
      let evaluated = rank-IsEvaluated evaluate sort o s real population er' b mem-cons_self in
      ∥∥₁_elim evaluated (Bool-set _ _) λ eb.
        o.le_trans cost b.cost k (generations-least c j next g1 b b.cost cost n h'' kept eb hb ec)
          (rank-least evaluate sort o s real population er' a k m e)

  -- With at least one generation and one elite, a sort that orders by cost and an evaluator that
  -- never costs a NaN, the gains that the search returns cost no more than any gains it started
  -- from, given the comparisons of IEEE 754.
  pub optimize-le-initial :
      (c : Config D) (g : G) {population : List (Individual D)} {genes : List D} {g1 g2 : G}
      (a : Individual D) (k cost : D)
      → 0 < c.num_generations
      → 0 < c.num_elites
      → initialize_population c g ≡ some (population, g1)
      → optimize evaluate sort c g ≡ some (genes, g2)
      → Mem a population
      → evaluate a.genes ≡ some k
      → evaluate genes ≡ some cost
      → cost ≼ k ≡ true
  unfolding optimize
  optimize-le-initial c g a k cost later n hi h m e ec =
      let ((population, g1), ei, h') = >>=-eq_some (initialize_population c g) h in
      let ((final, g2), ef, h'') =
        >>=-eq_some (generations evaluate sort c c.num_generations population g1) h' in
      let (genes, eb, h3) = >>=-eq_some (best_genes final) h'' in
      let same = ap (λ t. t.0) (some-injective _ _ (sym hi ∙ ei)) in
      let ef' =
        subst (λ j. generations evaluate sort c j population g1 ≡ some (final, g2))
          (suc_pred c.num_generations later) ef in
      generations-least c (c.num_generations - 1) population g1 a k cost n ef'
        (subst (Mem a) same m) e (eb ∙ ap some (ap (λ t. t.0) (some-injective _ _ h3))) ec
