-- ===== src/Opt/Optimizer/Sizes.antt =====
-- src/opt/GeneticOptimizer.cpp: no read outside a vector, and the sizes of what the search makes.
use cubesat_fsw_gnc.Prelude.Every.{Every-get_elem?, Every, Every-nil, Every-cons, get_elem?-Returns}
use cubesat_fsw_gnc.Prelude.{
  ◌%◌, ◌*◌, ℕ, zero, suc, ◌+◌, ◌≤◌, ◌<◌, ◌≡◌, refl, ap, sym, ◌∙◌, List, [], ◌∷◌, length, arith, inl,
  inr, Bool-cases,
}
use cubesat_fsw_gnc.Prelude.Options.{Returns-some, Returns-bind, Returns}
use cubesat_fsw_gnc.Opt.Optimizer.{
  make_child, breed, draw_parent, mutate, breed_rest, Individual, Config, Random, draw_genes,
  draw_population, newborn, blend, step_gene, mutate_gene, mutate_genes,
}
use native.Mathlib.Nat.{ℕ_set, mod-lt}
use cubesat_fsw_gnc.Double.{Double, ◌≺◌}

-- Bounds for at least three gains, and no more elites than individuals.
abbrev pub IsSound : {D : Type 0} → Config D → Type 0
IsSound c =
    (3 ≤ length c.min_gains)
    × (length c.max_gains ≡ length c.min_gains)
    × (c.num_elites ≤ c.population_size)
    × (0 < c.population_size)

-- An individual with `n` genes.
abbrev pub HasGenes : {D : Type 0} → ℕ → Individual D → Type 0
HasGenes n a = length a.genes ≡ n

-- A population of `k` individuals with `n` genes.
abbrev pub IsPopulation : {D : Type 0} → ℕ → ℕ → List (Individual D) → Type 0
IsPopulation k n population = (length population ≡ k) × Every (HasGenes n) population

pub HasGenes-prop : {D : Type 0} (n : ℕ) (a : Individual D) → IsProp (HasGenes n a)
HasGenes-prop n a = ℕ_set _ _

pub IsPopulation-nil : {D : Type 0} (n : ℕ) → IsPopulation {D = D} 0 n []
IsPopulation-nil n = (refl, Every-nil (HasGenes n))

pub IsPopulation-cons :
    {D : Type 0} {k n : ℕ} {a : Individual D} {population : List (Individual D)}
    → HasGenes n a
    → IsPopulation k n population
    → IsPopulation (suc k) n (a ∷ population)
IsPopulation-cons {n} h p = (ap suc p.0, Every-cons (HasGenes-prop n) h p.1)

module _ {D G : Type 0} ⦃d : Double D⦄ ⦃r : Random D G⦄ where
  draw_genes-Returns :
      (lows highs : List D) (g : G)
      → length highs ≡ length lows
      → Returns (λ (genes, g1). length genes ≡ length lows) (draw_genes lows highs g)
  unfolding draw_genes
  draw_genes-Returns [] highs g h = Returns-some refl
  draw_genes-Returns (low ∷ lows) [] g h = absurd (omega arith)
  draw_genes-Returns (low ∷ lows) (high ∷ highs) g h =
      Returns-bind (draw_genes-Returns lows highs (r.uniform g).1 (omega arith))
        λ (genes, g1) l. Returns-some (ap suc l)

  pub draw_population-Returns :
      (c : Config D) (k : ℕ) (g : G)
      → IsSound c
      → Returns
          (λ (population, g1). IsPopulation k (length c.min_gains) population)
          (draw_population c k g)
  unfolding draw_population newborn
  draw_population-Returns c zero g h = Returns-some (IsPopulation-nil _)
  draw_population-Returns c (suc k) g h =
      Returns-bind (draw_genes-Returns c.min_gains c.max_gains g h.1) λ (genes, g1) l.
        Returns-bind (draw_population-Returns c k g1 h)
          λ (population, g2) p. Returns-some (IsPopulation-cons l p)

  blend-Returns :
      (xs ys : List D) (g : G)
      → length ys ≡ length xs
      → Returns (λ (genes, g1). length genes ≡ length xs) (blend xs ys g)
  unfolding blend
  blend-Returns [] ys g h = Returns-some refl
  blend-Returns (x ∷ xs) [] g h = absurd (omega arith)
  blend-Returns (x ∷ xs) (y ∷ ys) g h =
      Returns-bind (blend-Returns xs ys (r.uniform g).1 (omega arith))
        λ (genes, g1) l. Returns-some (ap suc l)

  step_gene-Returns :
      (c : Config D) (i : ℕ) (x : D) (g : G)
      → i < length c.min_gains
      → length c.max_gains ≡ length c.min_gains
      → Returns {0, 0} (λ t. Unit) (step_gene c i x g)
  unfolding step_gene
  step_gene-Returns c i x g h m = Returns-bind (get_elem?-Returns c.min_gains i h) λ low u.
      Returns-bind (get_elem?-Returns c.max_gains i (omega arith)) λ high v. Returns-some tt

  mutate_gene-Returns :
      (c : Config D) (i : ℕ) (x : D) (g : G)
      → i < length c.min_gains
      → length c.max_gains ≡ length c.min_gains
      → Returns {0, 0} (λ t. Unit) (mutate_gene c i x g)
  unfolding mutate_gene
  mutate_gene-Returns c i x g h m = elim (Bool-cases ((r.uniform g).0 ≺ c.mutation_rate)) [
    | inl e ↦ rw e (step_gene-Returns c i x (r.uniform g).1 h m)
    | inr e ↦ rw e (Returns-some tt)
  ]

  mutate_genes-Returns :
      (c : Config D) (i : ℕ) (xs : List D) (g : G)
      → i + length xs ≤ length c.min_gains
      → length c.max_gains ≡ length c.min_gains
      → Returns (λ (genes, g1). length genes ≡ length xs) (mutate_genes c i xs g)
  unfolding mutate_genes
  mutate_genes-Returns c i [] g h m = Returns-some refl
  mutate_genes-Returns c i (x ∷ xs) g h m =
      Returns-bind (mutate_gene-Returns c i x g (omega arith) m) λ (y, g1) u.
        Returns-bind (mutate_genes-Returns c (suc i) xs g1 (omega arith) m)
          λ (ys, g2) l. Returns-some (ap suc l)

  draw_parent-Returns :
      (c : Config D) {k n : ℕ} (population : List (Individual D)) (g : G)
      → 0 < k
      → IsPopulation k n population
      → Returns (λ (a, g1). HasGenes n a) (draw_parent c population g)
  unfolding draw_parent
  draw_parent-Returns c [] g h p = absurd (omega (arith, p.0))
  draw_parent-Returns c {n} (a ∷ others) g h p =
      let i = (r.integer (c.num_elites * 2) g).0 % length (a ∷ others) in
      let i_lt = mod-lt (r.integer (c.num_elites * 2) g).0 (omega arith) in
      let (parent, e, u) = get_elem?-Returns (a ∷ others) i i_lt in
      rw e (Returns-some (Every-get_elem? (HasGenes n) (a ∷ others) i p.1 e))

  breed-Returns :
      {n : ℕ} (a b : Individual D) (g : G)
      → HasGenes n a
      → HasGenes n b
      → Returns (λ (child, g1). HasGenes n child) (breed a b g)
  unfolding breed newborn
  breed-Returns a b g h h' =
      Returns-bind (blend-Returns a.genes b.genes g (h' ∙ sym h))
        λ (genes, g1) l. Returns-some (l ∙ h)

  mutate-Returns :
      (c : Config D) (a : Individual D) (g : G)
      → length c.max_gains ≡ length c.min_gains
      → HasGenes (length c.min_gains) a
      → Returns (λ (child, g1). HasGenes (length c.min_gains) child) (mutate c a g)
  unfolding mutate
  mutate-Returns c a g m h =
      let draws = r.normal c.mutation_step g in
      Returns-bind (mutate_genes-Returns c 0 a.genes draws (omega (arith, h)) m)
        λ (genes, g1) l. Returns-some (l ∙ h)

  make_child-Returns :
      (c : Config D) {k : ℕ} (population : List (Individual D)) (g : G)
      → 0 < k
      → length c.max_gains ≡ length c.min_gains
      → IsPopulation k (length c.min_gains) population
      → Returns (λ (a, g1). HasGenes (length c.min_gains) a) (make_child c population g)
  unfolding make_child breed mutate newborn
  make_child-Returns c population g h m p =
      Returns-bind (draw_parent-Returns c population g h p) λ (a, g1) l.
        Returns-bind (draw_parent-Returns c population g1 h p) λ (b, g2) l'.
          Returns-bind (breed-Returns a b g2 l l')
            λ (child, g3) l''. mutate-Returns c child g3 m l''

  pub breed_rest-Returns :
      (c : Config D) {k : ℕ} (population : List (Individual D)) (j : ℕ) (g : G)
      → 0 < k
      → length c.max_gains ≡ length c.min_gains
      → IsPopulation k (length c.min_gains) population
      → Returns
          (λ (children, g1). IsPopulation j (length c.min_gains) children)
          (breed_rest c population j g)
  unfolding breed_rest
  breed_rest-Returns c population zero g h m p = Returns-some (IsPopulation-nil _)
  breed_rest-Returns c population (suc j) g h m p =
      Returns-bind (make_child-Returns c population g h m p) λ (child, g1) l.
        Returns-bind (breed_rest-Returns c population j g1 h m p)
          λ (children, g2) q. Returns-some (IsPopulation-cons l q)
