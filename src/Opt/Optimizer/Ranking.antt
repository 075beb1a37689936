-- ===== src/Opt/Optimizer/Ranking.antt =====
-- src/opt/GeneticOptimizer.cpp: after the evaluation and the sorting of a generation its first
-- individual is one of least cost.
use cubesat_fsw_gnc.Prelude.{◌≡◌, sym, ap, ◌∙◌, true, false, Option, some, List, [], ◌∷◌}
use cubesat_fsw_gnc.Opt.Optimizer.{log_best, rank, Individual, evaluate_population}
use mathlib.Core.Option.{some-injective}
use cubesat_fsw_gnc.Prelude.Every.{Every-perm, Every-cons, Every-nil, Every}
use cubesat_fsw_gnc.Double.{◌≺◌, IsOrdered, ◌≼◌, Double}
use cubesat_fsw_gnc.Opt.Optimizer.Total.{SortsByCost}
use mathlib.Core.List.{Perm, Pairwise, not-mem-nil, Mem, mem-cons, mem-cons_of_mem, mem-cons_self}
use mathlib.Core.List.Perm
use mathlib.Core.Bool.{Bool-set}
use cubesat_fsw_gnc.Prelude.Options.{>>=-eq_some}
use mathlib.Core.Logic.{∥∥₁_elim, ∥∥₁_prop}
use mathlib.Core.Logic.Or
use mathlib.Core.Path.{subst}

-- No cost of an evaluation is a NaN.
abbrev pub NeverNan : {D : Type 0} → ⦃d : Double D⦄ → (List D → Option D) → Type 0
NeverNan {D} evaluate = (genes : List D) (k : D) → evaluate genes ≡ some k → k ≼ k ≡ true

module _ {D : Type 0} (evaluate : List D → Option D) where
  -- The stored cost is the evaluator's.
  abbrev pub IsEvaluated : Individual D → Type 0
  IsEvaluated a = ∥ (evaluate a.genes ≡ some a.cost) ∥₁

  -- Some individual of the population has the genes of `a` and the cost that the evaluator gives.
  abbrev pub IsCosted : List (Individual D) → Individual D → Type 0
  IsCosted evaluated a =
      (b : Individual D) × Mem b evaluated × (b.genes ≡ a.genes) × (evaluate a.genes ≡ some b.cost)

  pub evaluate_population-IsEvaluated :
      (population : List (Individual D)) {evaluated : List (Individual D)}
      → evaluate_population evaluate population ≡ some evaluated
      → Every IsEvaluated evaluated
  unfolding evaluate_population
  evaluate_population-IsEvaluated [] h =
      subst (Every IsEvaluated) (some-injective _ _ h) (Every-nil IsEvaluated)
  evaluate_population-IsEvaluated (a ∷ rest) h =
      let (k, e, h') = >>=-eq_some (evaluate a.genes) h in
      let (others, e', h'') = >>=-eq_some (evaluate_population evaluate rest) h' in
      subst (Every IsEvaluated) (some-injective _ _ h'') (
        Every-cons (λ b. ∥∥₁_prop) {x = record a { cost = k }} ∣ e ∣₁
          (evaluate_population-IsEvaluated rest e'))

  pub evaluate_population-IsCosted :
      (population : List (Individual D)) {evaluated : List (Individual D)} (a : Individual D)
      → evaluate_population evaluate population ≡ some evaluated
      → Mem a population
      → ∥ IsCosted evaluated a ∥₁
  unfolding evaluate_population
  evaluate_population-IsCosted [] a h m = absurd (not-mem-nil m)
  evaluate_population-IsCosted (b ∷ rest) a h m =
      let (k, e, h') = >>=-eq_some (evaluate b.genes) h in
      let (others, e', h'') = >>=-eq_some (evaluate_population evaluate rest) h' in
      Or.elim ∥∥₁_prop (mem-cons.0 m)
        (λ same.
          subst (λ evaluated. ∥ IsCosted evaluated a ∥₁) (some-injective _ _ h'')
            ∣ (record b { cost = k }, mem-cons_self, ap (λ c. c.genes) (sym same), rw same e) ∣₁)
        (λ later.
          ∥∥₁_elim (evaluate_population-IsCosted rest a e' later) ∥∥₁_prop λ (c, m', g, e'').
            subst (λ evaluated. ∥ IsCosted evaluated a ∥₁) (some-injective _ _ h'')
              ∣ (c, mem-cons_of_mem _ m', g, e'') ∣₁)

module _ {D : Type 0} ⦃d : Double D⦄ (evaluate : List D → Option D)
    (sort : List (Individual D) → List (Individual D)) (o : IsOrdered D) (s : SortsByCost D sort)
    (real : NeverNan evaluate) where
  IsEvaluated-comparable : (a : Individual D) → IsEvaluated evaluate a → a.cost ≼ a.cost ≡ true
  IsEvaluated-comparable a h = ∥∥₁_elim h (Bool-set _ _) (real a.genes a.cost)

  pub rank-IsEvaluated :
      (population : List (Individual D)) {ranked : List (Individual D)}
      → rank evaluate sort population ≡ some ranked
      → Every (IsEvaluated evaluate) ranked
  unfolding rank
  rank-IsEvaluated population h =
      let (evaluated, e, h') = >>=-eq_some (evaluate_population evaluate population) h in
      let (gene, e', h'') = >>=-eq_some (log_best (sort evaluated)) h' in
      subst (Every (IsEvaluated evaluate)) (some-injective _ _ h'')
        (Every-perm (s.perm evaluated) (evaluate_population-IsEvaluated evaluate population e))

  -- A head that no later cost is less than costs no more than any member.
  Pairwise-head :
      (b : Individual D) (rest : List (Individual D))
      → Pairwise (λ x y. y.cost ≺ x.cost ≡ false) (b ∷ rest)
      → Every (λ x. x.cost ≼ x.cost ≡ true) (b ∷ rest)
      → Every (λ x. b.cost ≼ x.cost ≡ true) (b ∷ rest)
  Pairwise-head b rest (Pairwise.cons below p) h =
      Every-cons (λ x. Bool-set _ _) (h b mem-cons_self)
        λ x m.
          o.le_of_not_lt x.cost b.cost (h x (mem-cons_of_mem _ m)) (h b mem-cons_self) (below x m)

  pub rank-least :
      (population : List (Individual D)) {b : Individual D} {rest : List (Individual D)}
      → rank evaluate sort population ≡ some (b ∷ rest)
      → (a : Individual D) (k : D) → Mem a population
      → evaluate a.genes ≡ some k
      → b.cost ≼ k ≡ true
  unfolding rank
  rank-least population {b} {rest} h a k m e =
      let (evaluated, ev, h') = >>=-eq_some (evaluate_population evaluate population) h in
      let (gene, el, h'') = >>=-eq_some (log_best (sort evaluated)) h' in
      let sorted : sort evaluated ≡ b ∷ rest = some-injective _ _ h'' in
      let same : Perm (b ∷ rest) evaluated =
        subst (λ l. Perm l evaluated) sorted (s.perm evaluated) in
      let comparable : Every (λ x. x.cost ≼ x.cost ≡ true) evaluated = λ x mx.
        IsEvaluated-comparable x (evaluate_population-IsEvaluated evaluate population ev x mx) in
      let least =
        Pairwise-head b rest
          (subst (Pairwise (λ x y. y.cost ≺ x.cost ≡ false)) sorted
            (s.ascending evaluated comparable))
          (Every-perm same comparable) in
      ∥∥₁_elim (evaluate_population-IsCosted evaluate population a ev m) (Bool-set _ _)
        λ (c, mc, g, ec).
          subst (λ z. b.cost ≼ z ≡ true) (some-injective _ _ (sym ec ∙ e))
            (least c ((Perm.mem_iff same).1 mc))
