-- ===== src/Opt/Optimizer/Sorting.antt =====
-- An insertion sort by cost, which does what the search relies on in `std::sort`; for tests.
use cubesat_fsw_gnc.Prelude.Every.{Every-tail, Every-cons, Every-perm, Every}
use mathlib.Core.List.{Pairwise, Perm, Pairwise-singleton, mem-cons_of_mem}
use cubesat_fsw_gnc.Double.{◌≺◌, ◌≼◌, IsOrdered, Double}
use cubesat_fsw_gnc.Opt.Optimizer.Total.{SortsByCost}
use cubesat_fsw_gnc.Opt.Optimizer.{Individual}
use cubesat_fsw_gnc.Prelude.{◌≡◌, inl, inr, true, false, List, [], ◌∷◌, if◌then◌else◌, Bool-cases}
use mathlib.Core.List.Perm
use mathlib.Core.Bool.{Bool-set}

module _ {D : Type 0} ⦃d : Double D⦄ where
  unfoldable pub insert : Individual D → List (Individual D) → List (Individual D)
  insert a [] = a ∷ []
  insert a (b ∷ rest) =
      let later = insert a rest in if a.cost ≺ b.cost then a ∷ b ∷ rest else b ∷ later

  unfoldable pub insertion_sort : List (Individual D) → List (Individual D)
  insertion_sort [] = []
  insertion_sort (a ∷ rest) = insert a (insertion_sort rest)

  insert-perm : (a : Individual D) (l : List (Individual D)) → Perm (insert a l) (a ∷ l)
  unfolding insert
  insert-perm a [] = Perm.rfl
  insert-perm a (b ∷ rest) = elim (Bool-cases (a.cost ≺ b.cost)) [
    | inl e ↦ rw e Perm.rfl
    | inr e ↦ rw e (Perm.trans (Perm.cons b (insert-perm a rest)) (Perm.swap a b rest))
  ]

  insertion_sort-perm : (l : List (Individual D)) → Perm (insertion_sort l) l
  unfolding insertion_sort
  insertion_sort-perm [] = Perm.rfl
  insertion_sort-perm (a ∷ rest) =
      Perm.trans (insert-perm a (insertion_sort rest)) (Perm.cons a (insertion_sort-perm rest))

  abbrev NotLess : Individual D → Individual D → Type 0
  NotLess a b = b.cost ≺ a.cost ≡ false

  abbrev IsComparable : Individual D → Type 0
  IsComparable a = a.cost ≼ a.cost ≡ true

module _ {D : Type 0} ⦃d : Double D⦄ (o : IsOrdered D) where
  -- Below the head of an ascending list is below all of it.
  lt-NotLess :
      (a b : Individual D)
      → a.cost ≺ b.cost ≡ true
      → (c : Individual D) → IsComparable c
      → NotLess b c
      → NotLess a c
  lt-NotLess a b h c hc n =
      let (ha, hb) = o.le_refl_of_lt a.cost b.cost h in
      o.not_lt_of_le a.cost c.cost (
        o.le_trans a.cost b.cost c.cost (o.le_of_lt a.cost b.cost h)
          (o.le_of_not_lt c.cost b.cost hc hb n))

  insert-Pairwise :
      (a : Individual D) (l : List (Individual D))
      → Every IsComparable l
      → Pairwise NotLess l
      → Pairwise NotLess (insert a l)
  unfolding insert
  insert-Pairwise a [] h p = Pairwise-singleton _ a
  insert-Pairwise a (b ∷ rest) h (Pairwise.cons below p) = elim (Bool-cases (a.cost ≺ b.cost)) [
    | inl e ↦ rw e (
        Pairwise.cons
          (Every-cons (λ c. Bool-set _ _)
            (o.not_lt_of_le a.cost b.cost (o.le_of_lt a.cost b.cost e))
            (λ c m. lt-NotLess a b e c (h c (mem-cons_of_mem _ m)) (below c m)))
          (Pairwise.cons below p))
    | inr e ↦ rw e (
        Pairwise.cons (Every-perm (insert-perm a rest) (Every-cons (λ c. Bool-set _ _) e below))
          (insert-Pairwise a rest (Every-tail h) p))
  ]

  insertion_sort-Pairwise :
      (l : List (Individual D)) → Every IsComparable l → Pairwise NotLess (insertion_sort l)
  unfolding insertion_sort
  insertion_sort-Pairwise [] h = Pairwise.nil
  insertion_sort-Pairwise (a ∷ rest) h =
      insert-Pairwise a (insertion_sort rest) (Every-perm (insertion_sort-perm rest) (Every-tail h))
        (insertion_sort-Pairwise rest (Every-tail h))

  pub insertion_sort-SortsByCost : SortsByCost D insertion_sort
  insertion_sort-SortsByCost = record {
    perm = insertion_sort-perm;
    ascending = insertion_sort-Pairwise;
  }
