-- ===== src/Core/SpscQueue/Pop.antt =====
-- The steps of `pop` of src/fsw/core/SPSCQueue.hpp, at any moment of the producer.
use mathlib.Core.List.{append_assoc}
use mathlib.Core.Option.{some-injective}
use cubesat_fsw_gnc.Prelude.{
  ℕ, zero, suc, ◌^◌, ◌<◌, ◌≡◌, refl, sym, ap, ◌∙◌, ◌≢◌, inl, inr, some, List, [], ◌∷◌, ◌++◌, arith,
  length, get_elem?, get_or, ◌==◌, Bool-cases,
}
use cubesat_fsw_gnc.Core.SpscQueue.{SpscQueue, distance}
use cubesat_fsw_gnc.Core.SpscQueue.Mask.{step}
use cubesat_fsw_gnc.Core.SpscQueue.Ring.{
  Holds, step-distance, step-bound, step-injective, distance-zero,
}
use cubesat_fsw_gnc.Core.SpscQueue.Threads.{
  Producer, ready, has_room, has_written, Consumer, waiting, has_item, has_read, check_item,
  read_cell, store_head, Threads, consume,
}
use cubesat_fsw_gnc.Core.SpscQueue.Invariant.{Producing, Consuming, IsRing, IsFifo, after-step}

module _ {A : Type 0} where
  -- The steps of the consumer.
  pub item-IsFifo :
      (k : ℕ) (t : Threads A) (out_item : A) (c : Consumer A)
      → IsFifo k t
      → IsFifo k (consume (check_item out_item) c t)
  unfolding consume Consuming
  item-IsFifo k t out_item waiting f = elim (Bool-cases (t.queue.head == t.queue.tail)) [
    | inl h ↦ rw h f
    | inr h ↦ rw h record {
      ring = f.ring;
      items = f.items;
      items_length = f.items_length;
      items_held = f.items_held;
      items_order = f.items_order;
      producing = f.producing;
      consuming = (refl, (λ e. ground (arith, h, e)));
    }
  ]
  item-IsFifo k t out_item (has_item o a) f = f
  item-IsFifo k t out_item (has_read i a) f = f

  get_or-get_elem? :
      (xs : List A) (i : ℕ) (out_item : A)
      → i < length xs
      → get_elem? xs i ≡ some (get_or xs i out_item)
  get_or-get_elem? [] i out_item h = absurd (omega arith)
  get_or-get_elem? (x ∷ xs) zero out_item h = refl
  get_or-get_elem? (x ∷ xs) (suc i) out_item h = get_or-get_elem? xs i out_item (omega arith)

  pub read-IsFifo :
      (k : ℕ) (t : Threads A) (c : Consumer A)
      → Consuming t.queue c
      → IsFifo k t
      → IsFifo k (consume read_cell c t)
  unfolding consume Consuming
  read-IsFifo k t waiting e f = f
  read-IsFifo k t (has_item out_item current_head) (e, n) f = record {
    ring = f.ring;
    items = f.items;
    items_length = f.items_length;
    items_held = f.items_held;
    items_order = f.items_order;
    producing = f.producing;
    consuming = rw e (
      refl,
      n,
      get_or-get_elem? t.queue.buffer t.queue.head out_item
          (omega (arith, f.ring.head_lt, f.ring.length_eq)),
    );
  }
  read-IsFifo k t (has_read i a) e f = f

  -- A head that steps keeps what the producer knows of the tail.
  Producing-head :
      (k : ℕ) (q : SpscQueue A) (p : Producer A)
      → IsRing k q
      → q.head ≢ q.tail
      → Producing k q p
      → Producing k (record q { head = step (2 ^ k) q.head }) p
  unfolding Producing
  Producing-head k q ready r n h = tt
  Producing-head k q (has_room i a b) r n (e, o, m) =
      (e, o, (λ z. n (step-injective (2 ^ k) q.head q.tail r.head_lt r.tail_lt (sym z ∙ o))))
  Producing-head k q (has_written i b) r n (o, m, g) =
      (o, (λ z. n (step-injective (2 ^ k) q.head q.tail r.head_lt r.tail_lt (sym z ∙ o))), g)

  -- Taking the head's item off the ring.
  store_head-items :
      (k : ℕ) (t : Threads A) (item : A) (xs : List A)
      → IsFifo k t
      → t.queue.head ≢ t.queue.tail
      → get_elem? t.queue.buffer t.queue.head ≡ some item
      → length xs ≡ distance (2 ^ k) t.queue.head t.queue.tail
      → Holds t.queue.buffer (2 ^ k) t.queue.head xs
      → t.popped ++ xs ≡ t.pushed
      → IsFifo k (record t {
        queue = record t.queue { head = step (2 ^ k) t.queue.head };
        consumer = waiting;
        popped = t.popped ++ item ∷ [];
      })
  unfolding Holds Consuming
  store_head-items k t item [] f n g l h o =
      absurd
        (n (distance-zero (2 ^ k) t.queue.head t.queue.tail f.ring.head_lt f.ring.tail_lt (sym l)))
  store_head-items k t item (x ∷ xs) f n g l (a, h) o = record {
    ring = record {
      capacity_eq = f.ring.capacity_eq;
      length_eq = f.ring.length_eq;
      head_lt = step-bound (2 ^ k) t.queue.head f.ring.head_lt;
      tail_lt = f.ring.tail_lt;
    };
    items = xs;
    items_length = sym (
        step-distance (2 ^ k) t.queue.head t.queue.tail (length xs) f.ring.head_lt f.ring.tail_lt
          (sym l));
    items_held = h;
    items_order =
        append_assoc t.popped (item ∷ []) xs
        ∙ ap (λ y. t.popped ++ y ∷ xs) (some-injective _ _ (sym g ∙ a))
        ∙ o;
    producing = Producing-head k t.queue t.producer f.ring n f.producing;
    consuming = tt;
  }

  pub store_head-IsFifo :
      (k : ℕ) (t : Threads A) (c : Consumer A)
      → Consuming t.queue c
      → IsFifo k t
      → IsFifo k (consume store_head c t)
  unfolding consume Consuming
  store_head-IsFifo k t waiting e f = f
  store_head-IsFifo k t (has_item o a) e f = f
  store_head-IsFifo k t (has_read item current_head) (e, n, g) f =
      rw (e, after-step k t.queue t.queue.head f.ring f.ring.head_lt)
        (store_head-items k t item f.items f n g f.items_length f.items_held f.items_order)
