-- ===== src/Core/SpscQueue/Unread.antt =====
-- src/fsw/core/SPSCQueue.hpp: a ring that nobody reads.
use mathlib.Core.List.{append_assoc, append-nil}
use cubesat_fsw_gnc.Prelude.{
  ◌≤◌, ℕ, zero, suc, ◌-◌, ◌^◌, ◌<◌, ◌≤◌, ◌≡◌, refl, sym, ◌∙◌, inl, inr, true, false, List, [], ◌∷◌,
  ◌++◌, arith, length, length-append, length-set, length-replicate, get_elem?-set_self, take, set,
  ltb, ◌==◌, Bool-cases, if◌then◌else◌, min, length-take,
}
use cubesat_fsw_gnc.Core.SpscQueue.{SpscQueue, after, distance, size, push, init}
use cubesat_fsw_gnc.Core.SpscQueue.Mask.{step, power-positive}
use cubesat_fsw_gnc.Core.SpscQueue.Ring.{Holds, Holds-set, Holds-snoc}
use cubesat_fsw_gnc.Core.SpscQueue.Invariant.{IsRing, after-step}

take-append_full : {A : Type 0} (xs ys : List A) (n : ℕ) → length xs ≡ n → take n (xs ++ ys) ≡ xs
take-append_full [] ys zero h = refl
take-append_full [] ys (suc n) h = absurd (omega (arith, h))
take-append_full (x ∷ xs) ys zero h = absurd (omega (arith, h))
take-append_full (x ∷ xs) ys (suc n) h = rw (take-append_full xs ys n (omega (arith, h))) refl

take_all : {A : Type 0} (xs : List A) (n : ℕ) → length xs ≤ n → take n xs ≡ xs
take_all [] zero h = refl
take_all [] (suc n) h = refl
take_all (x ∷ xs) zero h = absurd (omega (arith, h))
take_all (x ∷ xs) (suc n) h = rw (take_all xs n (omega (arith, h))) refl

module _ {A : Type 0} where
  -- Many pushes, one after the other.
  unfoldable pub push_all : SpscQueue A → List A → SpscQueue A
  push_all q [] = q
  push_all q (x ∷ xs) = push_all (push q x).0 xs

  -- A ring that holds these items from cell 0 on.
  pub record IsUnread (k : ℕ) (q : SpscQueue A) (xs : List A) : Type 0 where
    pub ring : IsRing k q
    pub head_eq : q.head ≡ 0
    pub tail_eq : q.tail ≡ length xs
    pub held : Holds q.buffer (2 ^ k) 0 xs

  -- What is held after a push.
  unfoldable offer : ℕ → List A → A → List A
  offer k xs item = if ltb (suc (length xs)) (2 ^ k) then xs ++ item ∷ [] else xs

  accepted :
      (k : ℕ) (q : SpscQueue A) (xs : List A) (item : A)
      → IsUnread k q xs
      → suc (length xs) < 2 ^ k
      → IsUnread k
          (record q { buffer = set q.buffer q.tail item; tail = suc (length xs) })
          (xs ++ item ∷ [])
  unfolding distance
  accepted k q xs item u l =
      let t : q.tail < 2 ^ k = omega (arith, l, u.tail_eq) in
      let n : length xs ≡ distance (2 ^ k) 0 q.tail = ground (arith, u.tail_eq) in
      record {
        ring = record {
          capacity_eq = u.ring.capacity_eq;
          length_eq = length-set q.buffer q.tail item ∙ u.ring.length_eq;
          head_lt = u.ring.head_lt;
          tail_lt = l;
        };
        head_eq = u.head_eq;
        tail_eq = omega (arith, length-append xs (item ∷ []));
        held =
            Holds-snoc (set q.buffer q.tail item) xs (2 ^ k) 0 q.tail item (power-positive k) t n
              (get_elem?-set_self q.buffer q.tail item (omega (arith, t, u.ring.length_eq)))
              (Holds-set q.buffer xs (2 ^ k) 0 q.tail item (power-positive k) t n u.held);
      }

  push-room :
      (q : SpscQueue A) (item : A) (n : ℕ)
      → after q q.tail ≡ n
      → (n == q.head) ≡ false
      → (push q item).0 ≡ record q { buffer = set q.buffer q.tail item; tail = n }
  unfolding push
  push-room q item n a t = rw (a, t) refl

  push-refused :
      (q : SpscQueue A) (item : A) → (after q q.tail == q.head) ≡ true → (push q item).0 ≡ q
  unfolding push
  push-refused q item t = rw t refl

  push-IsUnread :
      (k : ℕ) (q : SpscQueue A) (xs : List A) (item : A)
      → IsUnread k q xs
      → IsUnread k (push q item).0 (offer k xs item)
  unfolding offer step
  push-IsUnread k q xs item u =
      let a = after-step k q q.tail u.ring u.ring.tail_lt in
      elim (Bool-cases (ltb (suc (length xs)) (2 ^ k))) [
        | inl p ↦
            let l : suc (length xs) < 2 ^ k = ground (arith, p) in
            let n : after q q.tail ≡ suc (length xs) = ground (arith, a, l, u.tail_eq) in
            let z : (suc (length xs) == q.head) ≡ false = ground (arith, u.head_eq) in
            rw (push-room q item (suc (length xs)) n z, p) (accepted k q xs item u l)
        | inr p ↦
            let z : (after q q.tail == q.head) ≡ true =
              ground (arith, a, p, u.tail_eq, u.ring.tail_lt, u.head_eq) in
            rw (push-refused q item z, p) u
      ]

  offer_le : (k : ℕ) (xs : List A) (item : A) → length xs < 2 ^ k → length (offer k xs item) < 2 ^ k
  unfolding offer
  offer_le k xs item h = ground (arith, h, length-append xs (item ∷ []))

  take-offer :
      (k : ℕ) (xs : List A) (item : A) (items : List A)
      → length xs < 2 ^ k
      → take (2 ^ k - 1) (offer k xs item ++ items) ≡ take (2 ^ k - 1) (xs ++ item ∷ items)
  unfolding offer
  take-offer k xs item items h = elim (Bool-cases (ltb (suc (length xs)) (2 ^ k))) [
    | inl p ↦ rw (p, append_assoc xs (item ∷ []) items) refl
    | inr p ↦
        let l : length xs ≡ 2 ^ k - 1 = ground (arith, p, h) in
        rw p (take-append_full xs items _ l ∙ sym (take-append_full xs (item ∷ items) _ l))
  ]

  push_all-IsUnread :
      (k : ℕ) (q : SpscQueue A) (xs items : List A)
      → length xs < 2 ^ k
      → IsUnread k q xs
      → IsUnread k (push_all q items) (take (2 ^ k - 1) (xs ++ items))
  unfolding push_all
  push_all-IsUnread k q xs [] h u = rw (append-nil xs, take_all xs (2 ^ k - 1) (omega (arith, h))) u
  push_all-IsUnread k q xs (item ∷ items) h u = rw (← take-offer k xs item items h) (
      push_all-IsUnread k (push q item).0 (offer k xs item) items (offer_le k xs item h)
        (push-IsUnread k q xs item u))

  pub push_all-init :
      (k : ℕ) (cell : A) (items : List A)
      → let q = push_all (init (2 ^ k) cell) items in
        IsUnread k q (take (2 ^ k - 1) items) × (size q ≡ min (length items) (2 ^ k - 1))
  unfolding init size distance Holds
  push_all-init k cell items =
      let u = push_all-IsUnread k (init (2 ^ k) cell) [] items (power-positive k) (record {
        ring = record {
          capacity_eq = refl;
          length_eq = length-replicate (2 ^ k) cell;
          head_lt = power-positive k;
          tail_lt = power-positive k;
        };
        head_eq = refl;
        tail_eq = refl;
        held = refl;
      }) in
      (u, ground (arith, u.head_eq, u.tail_eq, length-take (2 ^ k - 1) items))
