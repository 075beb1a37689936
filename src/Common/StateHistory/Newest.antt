-- ===== src/Common/StateHistory/Newest.antt =====
-- What the ring of src/common/StateHistory.hpp holds after any number of states.
use mathlib.Core.List.{append_assoc, append-nil}
use cubesat_fsw_gnc.Prelude.{
  ℕ, suc, ◌+◌, ◌-◌, ◌≤◌, min, ◌≡◌, refl, sym, inl, inr, true, false, List, [], ◌∷◌, ◌++◌, length,
  drop, length-append, length-replicate, length-drop, arith, if◌then◌else◌, ltb, Bool-cases,
}
use cubesat_fsw_gnc.Double.{Double}
use cubesat_fsw_gnc.Gnc.Interfaces.{State}
use cubesat_fsw_gnc.Core.SpscQueue.Ring.{Holds}
use cubesat_fsw_gnc.Common.StateHistory.{StateHistory, init, add_state}
use cubesat_fsw_gnc.Common.StateHistory.Rows.{
  Rows, IsHistory, filling-add_state, full-add_state, length-Rows,
}

module _ {D : Type 0} where
  -- Many states, one after the other.
  unfoldable pub add_all : StateHistory D → List (State D) → StateHistory D
  add_all h [] = h
  add_all h (s ∷ ss) = add_all (add_state h s) ss

  -- The newest `m` of a list.
  unfoldable pub newest : ℕ → List (State D) → List (State D)
  newest m ss = drop (length ss - m) ss

  newest-cons :
      (m : ℕ) (s : State D) (ss : List (State D)) → m ≤ length ss → newest m (s ∷ ss) ≡ newest m ss
  unfolding newest
  newest-cons m s ss h =
      let e : suc (length ss) - m ≡ suc (length ss - m) = omega arith in rw e refl

  newest-all : (m : ℕ) (ss : List (State D)) → length ss ≤ m → newest m ss ≡ ss
  unfolding newest
  newest-all m ss h = let e : length ss - m ≡ 0 = omega arith in rw e refl

  -- The states held after one more.
  unfoldable pub keep : ℕ → List (State D) → State D → List (State D)
  keep m [] s = s ∷ []
  keep m (x ∷ xs) s = if ltb (length xs + 1) m then x ∷ xs ++ s ∷ [] else xs ++ s ∷ []

  add_state-keep :
      (m : ℕ) (h : StateHistory D) (xs : List (State D)) (s : State D)
      → IsHistory m h xs
      → IsHistory m (add_state h s) (keep m xs s)
  unfolding keep Rows
  add_state-keep m h [] s i = elim i.rows [
    | inl (l, e, a) ↦ filling-add_state m h [] s i l e a
    | inr (l, a) ↦ absurd (omega (arith, i.head_lt, l))
  ]
  add_state-keep m h (x ∷ xs) s i = elim i.rows [
    | inl (l, e, a) ↦
        let t : ltb (length xs + 1) m ≡ true = ground (arith, l) in
        rw t (filling-add_state m h (x ∷ xs) s i l e a)
    | inr (l, a) ↦
        let t : ltb (length xs + 1) m ≡ false = ground (arith, l) in
        rw t (full-add_state m h x xs s i l a)
  ]

  newest-keep :
      (m : ℕ) (xs : List (State D)) (s : State D) (ss : List (State D))
      → 1 ≤ m
      → newest m (keep m xs s ++ ss) ≡ newest m (xs ++ s ∷ ss)
  unfolding keep
  newest-keep m [] s ss p = refl
  newest-keep m (x ∷ xs) s ss p = elim (Bool-cases (ltb (length xs + 1) m)) [
    | inl t ↦ rw (t, append_assoc xs (s ∷ []) ss) refl
    | inr t ↦
        rw (t, append_assoc xs (s ∷ []) ss)
          (sym (newest-cons m x (xs ++ s ∷ ss) (ground (arith, length-append xs (s ∷ ss), t))))
  ]

  add_all-IsHistory :
      (m : ℕ) (h : StateHistory D) (xs ss : List (State D))
      → IsHistory m h xs
      → IsHistory m (add_all h ss) (newest m (xs ++ ss))
  unfolding add_all
  add_all-IsHistory m h xs [] i = rw (append-nil xs, newest-all m xs (length-Rows m h xs i.rows)) i
  add_all-IsHistory m h xs (s ∷ ss) i =
      rw (← newest-keep m xs s ss (omega (arith, i.head_lt)))
        (add_all-IsHistory m (add_state h s) (keep m xs s) ss (add_state-keep m h xs s i))

module _ {D : Type 0} ⦃d : Double D⦄ where
  init-IsHistory : (m : ℕ) → 1 ≤ m → IsHistory m (init {D = D} m) []
  unfolding init Rows Holds
  init-IsHistory m p = record {
    max_eq = refl;
    length_eq = length-replicate m _;
    head_lt = omega (arith, p);
    size_eq = refl;
    rows = inl (omega (arith, p), refl, refl);
  }

  -- Whatever states are added to a new history of at least one row, it holds the newest of them, as
  -- many as it has rows: from row 0 on while it fills, and from the head around once it is full.
  pub add_all-init :
      (m : ℕ) (ss : List (State D))
      → 1 ≤ m
      → let h = add_all (init m) ss in (h.current_size ≡ min (length ss) m) × Rows m h (newest m ss)
  unfolding newest
  add_all-init m ss p =
      let i = add_all-IsHistory m (init m) [] ss (init-IsHistory m p) in
      (omega (arith, i.size_eq, length-drop (length ss - m) ss), i.rows)
