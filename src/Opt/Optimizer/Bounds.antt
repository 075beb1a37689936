-- ===== src/Opt/Optimizer/Bounds.antt =====
-- src/opt/GeneticOptimizer.cpp: what a mutation does to the genes.
use cubesat_fsw_gnc.Prelude.{
  ℕ, arith, ◌+◌, zero, suc, ◌≡◌, sym, ap, ◌∙◌, ◌⊎◌, inl, inr, true, some, List, [], ◌∷◌, get_elem?,
  Bool-cases,
}
use cubesat_fsw_gnc.Double.{◌⊕◌, ◌≺◌, IsOrdered, ◌≼◌, Double}
use mathlib.Core.Option.{none-ne-some, some-injective}
use cubesat_fsw_gnc.Opt.Optimizer.{
  Individual, bound, mutate_genes, mutate_gene, mutate, step_gene, Config, Random,
}
use cubesat_fsw_gnc.Prelude.Options.{>>=-eq_some}
use mathlib.Core.Path.{subst}

-- Between two bounds; false for a NaN.
abbrev pub InRange : {D : Type 0} → ⦃d : Double D⦄ → D → D → D → Type 0
InRange low high a = (low ≼ a ≡ true) × (a ≼ high ≡ true)

-- The bounds of the gain at index `i` and a value between them.
abbrev pub InBounds : {D : Type 0} → ⦃d : Double D⦄ → Config D → ℕ → D → Type 0
InBounds {D} c i a =
    (low high : D)
    → get_elem? c.min_gains i ≡ some low
    → get_elem? c.max_gains i ≡ some high
    → low ≼ high ≡ true
    → InRange low high a

module _ {D : Type 0} ⦃d : Double D⦄ (o : IsOrdered D) where
  bound-InRange : (low high a : D) → low ≼ high ≡ true → InRange low high (bound low high a)
  unfolding bound
  bound-InRange low high a h =
      ground (
        arith,
        o.le_refl_of_le low high h,
        o.le_of_lt a high,
        o.le_of_lt low a,
        o.le_of_lt low high,
      )

add_zero : (n : ℕ) → n ≡ n + 0
add_zero n = omega arith

zero_add : (n : ℕ) → 0 + n ≡ n
zero_add n = omega arith

suc-add : (m n : ℕ) → suc m + n ≡ m + suc n
suc-add m n = omega arith

module _ {D : Type 0} ⦃d : Double D⦄ where
  -- The gene at the front, and the others one index on.
  cases-cons :
      (c : Config D) (j : ℕ) (x : D) (xs : List D) (z : D) (zs : List D) (i : ℕ) (y : D)
      → (z ≡ x) ⊎ InBounds c j z
      → ((k : ℕ) → get_elem? zs k ≡ some y → (get_elem? xs k ≡ some y) ⊎ InBounds c (suc j + k) y)
      → get_elem? (z ∷ zs) i ≡ some y
      → (get_elem? (x ∷ xs) i ≡ some y) ⊎ InBounds c (j + i) y
  cases-cons c j x xs z zs zero y (inl same) later e = inl (ap some (sym same) ∙ e)
  cases-cons c j x xs z zs zero y (inr h) later e =
      inr (subst (λ n. InBounds c n y) (add_zero j) (subst (InBounds c j) (some-injective _ _ e) h))
  cases-cons c j x xs z zs (suc i) y first later e = rw (sym (suc-add j i)) (later i e)

module _ {D G : Type 0} ⦃d : Double D⦄ ⦃r : Random D G⦄ (o : IsOrdered D) where
  step_gene-InBounds :
      (c : Config D) (i : ℕ) (x y : D) (g : G) {g1 : G}
      → step_gene c i x g ≡ some (y, g1)
      → InBounds c i y
  unfolding step_gene
  step_gene-InBounds c i x y g h low high el eh le =
      let (low', el', h') = >>=-eq_some (get_elem? c.min_gains i) h in
      let (high', eh', h'') = >>=-eq_some (get_elem? c.max_gains i) h' in
      let same_low : low' ≡ low = some-injective _ _ (sym el' ∙ el) in
      let same_high : high' ≡ high = some-injective _ _ (sym eh' ∙ eh) in
      let result = ap (λ t. t.0) (some-injective _ _ h'') in
      rw (sym result, same_low, same_high) (bound-InRange o low high (x ⊕ (r.draw g).0) le)

  mutate_gene-cases :
      (c : Config D) (i : ℕ) (x y : D) (g : G) {g1 : G}
      → mutate_gene c i x g ≡ some (y, g1)
      → (y ≡ x) ⊎ InBounds c i y
  unfolding mutate_gene
  mutate_gene-cases c i x y g h = elim (Bool-cases ((r.uniform g).0 ≺ c.mutation_rate)) [
    | inl e ↦ inr (step_gene-InBounds c i x y (r.uniform g).1 (rw e at h))
    | inr e ↦ inl (sym (ap (λ t. t.0) (some-injective _ _ (rw e at h))))
  ]

  mutate_genes-cases :
      (c : Config D) (j : ℕ) (xs : List D) (g : G) {ys : List D} {g1 : G} (i : ℕ) (y : D)
      → mutate_genes c j xs g ≡ some (ys, g1)
      → get_elem? ys i ≡ some y
      → (get_elem? xs i ≡ some y) ⊎ InBounds c (j + i) y
  unfolding mutate_genes
  mutate_genes-cases c j [] g i y h e =
      let same = ap (λ t. t.0) (some-injective _ _ h) in
      absurd (none-ne-some _ (ap (λ l. get_elem? l i) same ∙ e))
  mutate_genes-cases c j (x ∷ xs) g i y h e =
      let ((z, g1), e1, h1) = >>=-eq_some (mutate_gene c j x g) h in
      let ((zs, g2), e2, h2) = >>=-eq_some (mutate_genes c (suc j) xs g1) h1 in
      let same = ap (λ t. t.0) (some-injective _ _ h2) in
      cases-cons c j x xs z zs i y (mutate_gene-cases c j x z g e1)
        (λ k ek. mutate_genes-cases c (suc j) xs g1 k y e2 ek) (ap (λ l. get_elem? l i) same ∙ e)

  -- Every gene of a mutated individual is the gene that was there or lies within the bounds of its
  -- index, where these are in order, even after a step that is a NaN, given the comparisons of IEEE
  -- 754.
  pub mutate-InBounds :
      (c : Config D) (a : Individual D) (g : G) {child : Individual D} {g1 : G} (i : ℕ) (y : D)
      → mutate c a g ≡ some (child, g1)
      → get_elem? child.genes i ≡ some y
      → (get_elem? a.genes i ≡ some y) ⊎ InBounds c i y
  unfolding mutate
  mutate-InBounds c a g i y h e =
      let ((genes, g1), e1, h1) =
        >>=-eq_some (mutate_genes c 0 a.genes (r.normal c.mutation_step g)) h in
      let same = ap (λ t. t.0.genes) (some-injective _ _ h1) in
      subst (λ n. (get_elem? a.genes i ≡ some y) ⊎ InBounds c n y) (zero_add i)
        (mutate_genes-cases c 0 a.genes (r.normal c.mutation_step g) i y e1
          (ap (λ l. get_elem? l i) same ∙ e))
