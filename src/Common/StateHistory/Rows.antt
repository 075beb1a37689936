-- ===== src/Common/StateHistory/Rows.antt =====
-- The ring of src/common/StateHistory.hpp before and after one state.
use native.Mathlib.Nat.{mod-eq_of_lt, mod_self}
use cubesat_fsw_gnc.Prelude.{
  ℕ, suc, ◌+◌, ◌%◌, ◌<◌, ◌≤◌, ◌≡◌, sym, ◌∙◌, inl, inr, ◌⊎◌, List, [], ◌∷◌, ◌++◌, length, set, some,
  length-set, length-append, get_elem?, get_elem?-set_self, arith, ◌==◌, Bool-cases,
}
use cubesat_fsw_gnc.Gnc.Interfaces.{State}
use cubesat_fsw_gnc.Core.SpscQueue.{distance}
use cubesat_fsw_gnc.Core.SpscQueue.Mask.{step}
use cubesat_fsw_gnc.Core.SpscQueue.Ring.{Holds, Holds-set, Holds-snoc, step-bound}
use cubesat_fsw_gnc.Common.StateHistory.{StateHistory, add_state}

step_lem : (m i : ℕ) → i < m → (i + 1) % m ≡ step m i
unfolding step
step_lem m i h = ground (arith, mod_self m, λ (p : i + 1 < m). mod-eq_of_lt p)

-- From the next index once around to this one.
round : (m i n : ℕ) → i < m → suc n ≡ m → n ≡ distance m (step m i) i
unfolding distance step
round m i n h e = ground arith

module _ {D : Type 0} where
  -- The rows hold these states, from row 0 while the ring fills, and from the head when it is full.
  unfoldable pub Rows : ℕ → StateHistory D → List (State D) → Type 0
  Rows m h xs =
      (length xs < m × (h.head ≡ length xs) × Holds h.rows m 0 xs)
      ⊎ ((length xs ≡ m) × Holds h.rows m h.head xs)

  pub record IsHistory (m : ℕ) (h : StateHistory D) (xs : List (State D)) : Type 0 where
    pub max_eq : h.max_size ≡ m
    pub length_eq : length h.rows ≡ m
    pub head_lt : h.head < m
    pub size_eq : h.current_size ≡ length xs
    pub rows : Rows m h xs

  written :
      (m : ℕ) (h : StateHistory D) (xs : List (State D))
      → IsHistory m h xs
      → (s : State D) → get_elem? (set h.rows h.head s) h.head ≡ some s
  written m h xs i s = get_elem?-set_self h.rows h.head s (omega (arith, i.length_eq, i.head_lt))

  next_head :
      (m : ℕ) (h : StateHistory D) (xs : List (State D))
      → IsHistory m h xs
      → (h.head + 1) % h.max_size ≡ step m h.head
  next_head m h xs i = rw i.max_eq (step_lem m h.head i.head_lt)

  held_filling :
      (m : ℕ) (h : StateHistory D) (xs : List (State D)) (s : State D)
      → IsHistory m h xs
      → h.head ≡ length xs
      → Holds h.rows m 0 xs
      → Holds (set h.rows h.head s) m 0 (xs ++ s ∷ [])
  unfolding distance
  held_filling m h xs s i e a =
      let p : 0 < m = omega (arith, i.head_lt) in
      let q : length xs ≡ distance m 0 h.head = ground (arith, e) in
      Holds-snoc (set h.rows h.head s) xs m 0 h.head s p i.head_lt q (written m h xs i s)
        (Holds-set h.rows xs m 0 h.head s p i.head_lt q a)

  filled :
      (m : ℕ) (h : StateHistory D) (xs : List (State D)) (s : State D)
      → IsHistory m h xs
      → length xs < m
      → h.head ≡ length xs
      → Holds (set h.rows h.head s) m 0 (xs ++ s ∷ [])
      → Rows m (add_state h s) (xs ++ s ∷ [])
  unfolding Rows add_state step
  filled m h xs s i l e a =
      let n : length (xs ++ s ∷ []) ≡ suc h.head = omega (arith, length-append xs (s ∷ []), e) in
      elim (Bool-cases (suc h.head == m)) [
        | inl q ↦ inr (ground (arith, n, q), rw (next_head m h xs i, q) a)
        | inr q ↦ inl (ground (arith, n, q, i.head_lt), rw (next_head m h xs i, q) (sym n), a)
      ]

  held_full :
      (m : ℕ) (h : StateHistory D) (x : State D) (xs : List (State D)) (s : State D)
      → IsHistory m h (x ∷ xs)
      → length (x ∷ xs) ≡ m
      → Holds h.rows m h.head (x ∷ xs)
      → Holds (set h.rows h.head s) m ((h.head + 1) % h.max_size) (xs ++ s ∷ [])
  unfolding Holds
  held_full m h x xs s i l (a, b) =
      let p = step-bound m h.head i.head_lt in
      let q = round m h.head (length xs) i.head_lt l in
      rw (next_head m h (x ∷ xs) i) (
        Holds-snoc (set h.rows h.head s) xs m (step m h.head) h.head s p i.head_lt q
          (written m h (x ∷ xs) i s)
          (Holds-set h.rows xs m (step m h.head) h.head s p i.head_lt q b))

  -- A state into a ring that fills, and into a full one.
  pub filling-add_state :
      (m : ℕ) (h : StateHistory D) (xs : List (State D)) (s : State D)
      → IsHistory m h xs
      → length xs < m
      → h.head ≡ length xs
      → Holds h.rows m 0 xs
      → IsHistory m (add_state h s) (xs ++ s ∷ [])
  unfolding add_state
  filling-add_state m h xs s i l e a = record {
    max_eq = i.max_eq;
    length_eq = length-set h.rows h.head s ∙ i.length_eq;
    head_lt = rw (i.max_eq, step_lem m h.head i.head_lt) (step-bound m h.head i.head_lt);
    size_eq = ground (arith, length-append xs (s ∷ []), i.size_eq, i.max_eq);
    rows = filled m h xs s i l e (held_filling m h xs s i e a);
  }

  pub full-add_state :
      (m : ℕ) (h : StateHistory D) (x : State D) (xs : List (State D)) (s : State D)
      → IsHistory m h (x ∷ xs)
      → length (x ∷ xs) ≡ m
      → Holds h.rows m h.head (x ∷ xs)
      → IsHistory m (add_state h s) (xs ++ s ∷ [])
  unfolding add_state Rows
  full-add_state m h x xs s i l a = record {
    max_eq = i.max_eq;
    length_eq = length-set h.rows h.head s ∙ i.length_eq;
    head_lt = rw (i.max_eq, step_lem m h.head i.head_lt) (step-bound m h.head i.head_lt);
    size_eq = ground (arith, length-append xs (s ∷ []), i.size_eq, i.max_eq, l);
    rows = inr (ground (arith, length-append xs (s ∷ []), l), held_full m h x xs s i l a);
  }

  pub length-Rows : (m : ℕ) (h : StateHistory D) (xs : List (State D)) → Rows m h xs → length xs ≤ m
  unfolding Rows
  length-Rows m h xs r = elim r [ inl (l, e, a) ↦ omega (arith, l) | inr (l, a) ↦ omega (arith, l) ]
